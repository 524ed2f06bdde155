-- ===== src/Ledger/Index.antt =====
-- The dictionaries `_by_id` and `_by_idempotency` of src/local_agent_dispatch/ledger/store.py, as
-- indexes of the list of events.
use local_agent_dispatch.Ledger.Event.{text_of}
use local_agent_dispatch.Ledger.Json.{Fields, find}
use local_agent_dispatch.Prelude.Dict
use local_agent_dispatch.Prelude.Dict.{Dict, get-put, get-put_self}
use local_agent_dispatch.Prelude.Keys.{◌=?◌, string_eq}
use local_agent_dispatch.Prelude.Members.{Mem-append_left, Mem-append_last, Mem-append_cases}
use local_agent_dispatch.Prelude.{
  String, ◌≡◌, sym, ap, ◌∙◌, subst, inl, inr, none, some, List, [], ◌∷◌, ◌++◌, arith, Bool-cases,
  none≢some, some-injective,
}
use mathlib.Core.List.{Memᴰ}

-- A dictionary from the texts of a field to the events that have them.
pub record IsIndex (name : String) (d : Dict String Fields) (events : List Fields) : Type 0 where
  pub found :
      (i : String) (e : Fields)
      → Dict.get i d ≡ some e
      → Memᴰ e events × (text_of (find name e) ≡ some i)
  pub held :
      (i : String) (e : Fields)
      → Memᴰ e events
      → text_of (find name e) ≡ some i
      → Dict.get i d ≡ some e

pub IsIndex-put :
    (name i : String) (e : Fields) (d : Dict String Fields) (events : List Fields)
    → IsIndex name d events
    → Dict.get i d ≡ none
    → text_of (find name e) ≡ some i
    → IsIndex name (Dict.put i e d) (events ++ e ∷ [])
IsIndex-put name i e d events h new_name names = record {
  found = λ j x there. elim (Bool-cases (i =? j)) [
    | inl same ↦
        let is_e : e ≡ x = ground (arith, same, there, get-put i j e d) in
        (
          subst (λ y. Memᴰ y (events ++ e ∷ [])) is_e (Mem-append_last events e),
          subst (λ y. text_of (find name y) ≡ some j) is_e
              (names ∙ ap some ((string_eq.beq_iff i j).0 same)),
        )
    | inr other ↦
        let (old, has_name) = h.found j x (ground (arith, other, there, get-put i j e d)) in
        (Mem-append_left events (e ∷ []) old, has_name)
  ];
  held = λ j x there has_name. elim (Mem-append_cases events e there) [
    | inl old ↦
        let there = h.held j x old has_name in
        elim (Bool-cases (i =? j)) [
          | inl same ↦ absurd (
              none≢some (
                sym new_name
                ∙ subst (λ k. Dict.get k d ≡ some x) (sym ((string_eq.beq_iff i j).0 same)) there))
          | inr other ↦ ground (arith, other, there, get-put i j e d)
        ]
    | inr last ↦
        let is_i : some i ≡ some j =
          sym names ∙ ap (λ y. text_of (find name y)) (sym last) ∙ has_name in
        subst (λ k. Dict.get k (Dict.put i e d) ≡ some x) (some-injective is_i)
          (get-put_self i e d ∙ ap some (sym last))
  ];
}

pub IsIndex-empty : (name : String) → IsIndex name [] []
unfolding Dict.get
IsIndex-empty name = record {
  found = λ i e there. absurd (none≢some there);
  held = λ i e member. elim member [ ];
}
