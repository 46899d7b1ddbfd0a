-- ===== src/Runtime/Stream.antt =====
-- How src/pollard/runtime.py reads what a step function returns: a dictionary, or a stream of chunks
-- that is merged into one.
use pollard.Common.{
  String, Bool, true, false, not, ◌||◌, List, [], ◌∷◌, Option, none, some, string_eq, if◌then◌else◌,
}
use Prim.Native.String as Native
use pollard.Errors.{type_error}
use pollard.Json.{
  Json, null, str, arr, obj, Items, nil, cons, Fields, end, field, get_field, set_field,
}
use pollard.Runtime.{Raised, error, thrown, marked, outcome_unknown, Outcome, returned, raised}

-- How a stream ends: by itself, or by an exception.
pub data StreamEnd : Type 0 where
  finished : StreamEnd
  failed : Raised → StreamEnd

-- What a step function returns or raises; `other` is a value that is neither a dictionary nor an
-- iterator.
pub data StepResult : Type 0 where
  complete : Fields → StepResult
  stream : List Json → StreamEnd → StepResult
  other : StepResult
  throws : Raised → StepResult

abbrev pub append_items : Items → Items → Items
append_items nil ys = ys
append_items (cons x xs) ys = cons x (append_items xs ys)

-- `_merge_stream_value`: dictionaries are merged, texts and lists are joined, and any other value
-- replaces the one before. The nested dictionary is changed in place.
unfoldable mutual
  pub merge_stream_value : Fields → Fields → Fields
  merge_stream_value target end = target
  merge_stream_value target (field key value delta) =
      merge_stream_value (set_field key (merge_at (get_field key target) value) target) delta

  pub merge_at : Option Json → Json → Json
  merge_at (some (obj current)) (obj delta) = obj (merge_stream_value current delta)
  merge_at (some (str current)) (str value) = str (Native.◌++◌ current value)
  merge_at (some (arr current)) (arr value) = arr (append_items current value)
  merge_at _ value = value

-- `d.get(key)`, where `None` reads like a key that is not there.
abbrev pub get_value : String → Fields → Option Json
get_value key fs = elim (get_field key fs) [ none ↦ none | some null ↦ none | some v ↦ some v ]

-- What one chunk makes of the result so far.
unfoldable pub chunk_result : Fields → Fields → Outcome Fields
chunk_result result chunk = elim (get_value "result" chunk) [
  | some (obj whole) ↦ returned whole
  | some _ ↦ raised (error type_error) []
  | none ↦ elim (get_value "delta" chunk) [
    | some (obj delta) ↦ returned (merge_stream_value result delta)
    | some _ ↦ raised (error type_error) []
    | none ↦ returned (merge_stream_value result chunk)
  ]
]

-- The callback for chunks: what it raises, if it does.
abbrev pub DeltaCallback : Type 0
DeltaCallback = Option (Fields → Option Raised)

abbrev pub call_back : DeltaCallback → Fields → Option Raised
call_back none chunk = none
call_back (some f) chunk = f chunk

-- Where the loop over the chunks stands: was there a chunk, and the result so far.
pub record Read : Type 0 where
  pub received_chunk : Bool
  pub result : Fields

abbrev pub end_outcome : StreamEnd → Outcome (Unit {0})
end_outcome finished = returned tt
end_outcome (failed e) = raised e []

abbrev pub received : Read → Read
received read = record read { received_chunk = true }

-- The loop; what it reached before an exception is kept with it.
unfoldable pub read_chunks :
    DeltaCallback → List Json → StreamEnd → Read → Read × Outcome (Unit {0})
unfolding chunk_result
read_chunks on_delta [] ends read = (read, end_outcome ends)
read_chunks on_delta (obj chunk ∷ items) ends read = elim (call_back on_delta chunk) [
  | some e ↦ (received read, raised e [])
  | none ↦ elim (chunk_result read.result chunk) [
    | raised e causes ↦ (received read, raised e causes)
    | returned result ↦
        read_chunks on_delta items ends (record { received_chunk = true; result = result })
  ]
]
read_chunks on_delta (_ ∷ items) ends read = (received read, raised (error type_error) [])

-- `is_post_dispatch_outcome_unknown`
abbrev pub is_post_dispatch_outcome_unknown : Raised → Bool
is_post_dispatch_outcome_unknown (outcome_unknown e) = true
is_post_dispatch_outcome_unknown (marked e) = true
is_post_dispatch_outcome_unknown _ = false

-- `mark_post_dispatch_outcome_unknown`
abbrev pub mark_post_dispatch_outcome_unknown : Raised → Raised
mark_post_dispatch_outcome_unknown (thrown name false) = outcome_unknown (thrown name false)
mark_post_dispatch_outcome_unknown e = marked e

-- What leaves the `except` block: an exception after the first chunk is marked, unless it already is.
abbrev pub leave_stream : Bool → Raised → Raised
leave_stream received_chunk e =
    if not received_chunk || is_post_dispatch_outcome_unknown e
    then e
    else mark_post_dispatch_outcome_unknown e

abbrev pub stream_outcome : Read × Outcome (Unit {0}) → Outcome Fields
stream_outcome (read, raised e causes) = raised (leave_stream read.received_chunk e) causes
stream_outcome (read, returned done) = returned read.result

abbrev pub no_chunks : Read
no_chunks = record { received_chunk = false; result = end }

-- `_consume_step_result` without `keep_chunks`, of a step function that may have raised itself.
unfoldable pub consume_step_result : DeltaCallback → StepResult → Outcome Fields
unfolding read_chunks
consume_step_result on_delta (complete result) = returned result
consume_step_result on_delta (stream items ends) =
    stream_outcome (read_chunks on_delta items ends no_chunks)
consume_step_result on_delta other = raised (error type_error) []
consume_step_result on_delta (throws e) = raised e []

-- `_reemit_chunks`: the callback gets the chunks of a recording, up to the first that it raises at.
abbrev pub emit_items : DeltaCallback → Items → Option Raised
emit_items on_delta nil = none
emit_items on_delta (cons (obj chunk) xs) = elim (call_back on_delta chunk) [
  | some e ↦ some e
  | none ↦ emit_items on_delta xs
]
emit_items on_delta (cons _ xs) = emit_items on_delta xs

unfoldable pub reemit_chunks : DeltaCallback → Json → Option Raised
reemit_chunks on_delta (obj result) = elim (get_field "chunks" result) [
  | some (arr chunks) ↦ emit_items on_delta chunks
  | _ ↦ none
]
reemit_chunks on_delta _ = none
