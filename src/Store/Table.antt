-- ===== src/Store/Table.antt =====
-- The rows of the stores of src/pollard/store.py and src/pollard/stores/_transactional.py as tables.
use pollard.Common.{
  String, ◌≡◌, sym, ◌∙◌, [], ◌∷◌, some, arith, ◌==◌, string_eq, Bool-cases, inl, inr, All,
}
use pollard.Common.Dict.{Dict, lookup, insert, Unique, Unique-insert}
use pollard.Tree.{Node}

-- Each row stands once, under the id of its node.
abbrev pub OwnId : String × Node → Type 0
OwnId (key, n) = n.id ≡ key

pub record IsTable (b : Dict String Node) : Type 0 where
  pub unique : Unique b
  pub own_ids : All OwnId b

own_ids-insert :
    (key : String) (n : Node) (b : Dict String Node)
    → n.id ≡ key
    → All OwnId b
    → All OwnId (insert key n b)
own_ids-insert key n [] own k = (own, tt)
own_ids-insert key n ((j, m) ∷ b) own k = elim (Bool-cases (j == key)) [
  | inl here ↦ rw here (own ∙ sym ((string_eq.beq_iff j key).0 here), k.1)
  | inr there ↦ rw there (k.0, own_ids-insert key n b own k.1)
]

pub OwnId-lookup :
    (key : String) (n : Node) (b : Dict String Node)
    → All OwnId b
    → lookup key b ≡ some n
    → n.id ≡ key
OwnId-lookup key n [] k e = absurd (cc)
OwnId-lookup key n ((j, m) ∷ b) k e = elim (Bool-cases (j == key)) [
  | inl here ↦ ground (arith, k.0, string_eq.beq_iff j key)
  | inr there ↦ OwnId-lookup key n b k.1 (rw there at e)
]

pub insert-IsTable :
    (key : String) (n : Node) (b : Dict String Node)
    → n.id ≡ key
    → IsTable b
    → IsTable (insert key n b)
insert-IsTable key n b own v = record {
  unique = Unique-insert key n b v.unique;
  own_ids = own_ids-insert key n b own v.own_ids;
}
