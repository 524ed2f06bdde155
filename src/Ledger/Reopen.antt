-- ===== src/Ledger/Reopen.antt =====
-- What opening a file makes of it and of the store, in src/local_agent_dispatch/ledger/store.py.
use local_agent_dispatch.Ledger.Append.{append-eq-returned}
use local_agent_dispatch.Ledger.Json.{null, boolean, number, text, array, object, Value, Fields}
use local_agent_dispatch.Ledger.Load.{read_jsonl, append_payloads, load}
use local_agent_dispatch.Ledger.Log.{IsReachable, opened, stepped}
use local_agent_dispatch.Ledger.Replayed.{IsReachable-file}
use local_agent_dispatch.Ledger.Store.{AppendResult, EventStore, append, recorded}
use local_agent_dispatch.Prelude.Keys.{◌=?◌, string_eq}
use local_agent_dispatch.Prelude.Members.{Mem-append_cases}
use local_agent_dispatch.Prelude.Outcome.{
  returned, >>=-eq-returned, returned-injective, raised≢returned,
}
use local_agent_dispatch.Prelude.{
  ℕ, String, ◌≡◌, ◌≢◌, refl, sym, ap, ◌∙◌, subst, ◌⊎◌, inl, inr, Bool, false, Option, some, List,
  [], ◌∷◌, ◌++◌, map, Bool-cases, Option-cases, true≢false,
}
use mathlib.Core.List.{Memᴰ}

module _ (loads : String → Option Value) (strip : String → String) where
  -- A line of the list, not blank, is read as this value.
  abbrev pub IsRead : Value → List String → Type 0
  IsRead v lines =
      (line : String) × Memᴰ line lines × (strip line ≢ "") × (loads (strip line) ≡ some v)

  full_line : (line : String) → (strip line =? "") ≡ false → strip line ≢ ""
  full_line line full blank = true≢false (sym ((string_eq.beq_iff (strip line) "").1 blank) ∙ full)

  later_line :
      {v : Value} {lines : List String} (line : String) → IsRead v lines → IsRead v (line ∷ lines)
  later_line line (l, there, full, read) = (l, Memᴰ.tail there, full, read)

  -- Each payload is read from a line.
  payloads-IsRead :
      (lines : List String) (vs : List Value)
      → read_jsonl loads strip lines ≡ returned vs
      → (v : Value) → Memᴰ v vs
      → IsRead v lines
  unfolding read_jsonl
  payloads-IsRead [] vs h v m = elim (subst (Memᴰ v) (sym (returned-injective h)) m) [ ]
  payloads-IsRead (line ∷ lines) vs h v m = elim (Bool-cases (strip line =? "")) [
    | inl blank ↦ later_line line (payloads-IsRead lines vs (rw blank at h) v m)
    | inr full ↦ elim (Option-cases (loads (strip line))) [
      | inl bad ↦ absurd (raised≢returned (rw (full, bad) at h))
      | inr (payload, read) ↦
          let (rest, at_rest, done) =
            >>=-eq-returned (read_jsonl loads strip lines) (λ ps. returned (payload ∷ ps))
              (rw (full, read) at h) in
          first_or_rest payload rest (full_line line full) read
            (payloads-IsRead lines rest at_rest v)
            (subst (Memᴰ v) (sym (returned-injective done)) m)
    ]
  ]
    where
      first_or_rest :
          (payload : Value) (rest : List Value)
          → strip line ≢ ""
          → loads (strip line) ≡ some payload
          → (Memᴰ v rest → IsRead v lines)
          → Memᴰ v (payload ∷ rest)
          → IsRead v (line ∷ lines)
      first_or_rest payload rest full read later (Memᴰ.head here) =
          (line, Memᴰ.head refl, full, read ∙ ap some (sym here))
      first_or_rest payload rest full read later (Memᴰ.tail there) = later_line line (later there)

module _ (is_decimal : ℕ → Bool) (dumps : Fields → String) where
  -- An append adds no event but the one given.
  append-origin :
      (e : Fields) {r : AppendResult} (s : EventStore) {t : EventStore}
      → append is_decimal dumps e s ≡ returned (r, t)
      → (x : Fields) → Memᴰ x t.events
      → Memᴰ x s.events ⊎ (x ≡ e)
  unfolding recorded
  append-origin e s h x m = elim (append-eq-returned is_decimal dumps e s h) [
    | inl (i, k, accepted, _, is_recorded) ↦
        Mem-append_cases s.events e (subst (λ (u : EventStore). Memᴰ x u.events) is_recorded m)
    | inr (_, same) ↦ inl (subst (λ (u : EventStore). Memᴰ x u.events) same m)
  ]

  -- What the appends of payloads lead to: a store that appends lead to, with events that were there or
  -- are payloads.
  appended_payloads :
      (file : Option (List String)) (vs : List Value) {s t : EventStore}
      → append_payloads is_decimal dumps vs s ≡ returned t
      → IsReachable is_decimal dumps file s
      → IsReachable is_decimal dumps file t
        × ((x : Fields) → Memᴰ x t.events → Memᴰ x s.events ⊎ Memᴰ (object x) vs)
  unfolding append_payloads
  appended_payloads file [] {s} h before =
      let same = returned-injective h in
      (
        subst (λ u. IsReachable is_decimal dumps file u) same before,
        λ x m. inl (subst (λ (u : EventStore). Memᴰ x u.events) (sym same) m),
      )
  appended_payloads file (object e ∷ vs) {s} h before =
      let (first, h1, h2) = >>=-eq-returned (append is_decimal dumps e s) _ h in
      let (reached, origin) = appended_payloads file vs h2 (stepped e {r = first.0} h1 before) in
      (
        reached,
        λ x m. elim (origin x m) [
          | inr later ↦ inr (Memᴰ.tail later)
          | inl there ↦ elim (append-origin e s h1 x there) [
            | inl old ↦ inl old
            | inr one ↦ inr (Memᴰ.head (ap object one))
          ]
        ],
      )
  appended_payloads file (null ∷ vs) h before = absurd (raised≢returned h)
  appended_payloads file (boolean b ∷ vs) h before = absurd (raised≢returned h)
  appended_payloads file (number n k ∷ vs) h before = absurd (raised≢returned h)
  appended_payloads file (text s ∷ vs) h before = absurd (raised≢returned h)
  appended_payloads file (array xs ∷ vs) h before = absurd (raised≢returned h)

  pub load-writes_again :
      (loads : String → Option Value) (strip : String → String) (lines : List String)
      (t : EventStore)
      → load is_decimal dumps loads strip lines ≡ returned t
      → ((e : Fields) → Memᴰ e t.events → IsRead loads strip (object e) lines)
        × (t.file ≡ some (lines ++ map dumps t.events))
  unfolding load
  load-writes_again loads strip lines t h =
      let (vs, at_lines, h2) = >>=-eq-returned (read_jsonl loads strip lines) _ h in
      let (reached, origin) = appended_payloads (some lines) vs h2 opened in
      (
        λ e m. elim (origin e m) [
          | inl nothing ↦ elim nothing [ ]
          | inr payload ↦ payloads-IsRead loads strip lines vs at_lines (object e) payload
        ],
        IsReachable-file is_decimal dumps lines reached,
      )
