-- ===== src/Topology/Resolve.antt =====
-- Which mount `resolve_mount` of src/local_agent_dispatch/resources/topology.py finds.
use mathlib.Core.List.{Memᴰ}
use local_agent_dispatch.Prelude.Members.{All-Mem}
use local_agent_dispatch.Prelude.{
  ℕ, sym, ap, subst, ◌∙◌, ◌≤◌, String, ◌≡◌, refl, ◌⊎◌, inl, inr, true, false, Option, none, some,
  List, [], ◌∷◌, arith, length, All, Bool-cases,
}
use local_agent_dispatch.Topology.Mounts.{
  Located, locate_one, normalized_mounts, exact_mount, better_mount, deepest_mount, resolution,
  resolve_located, resolve_mount,
}
use local_agent_dispatch.Topology.Paths.{
  Pathlib, PurePath, Flavor, windows_flavor, posix_flavor, unc, unknown, flavor_beq,
  pure_absolute_path, path_beq, covers, parts, is_root,
}
use local_agent_dispatch.World.Host.{MountState}

-- The mount is not a root, and its path begins the path asked for.
abbrev pub Covers : PurePath → Located → Type 0
Covers target l = (is_root l.1 ≡ false) × (covers l.1 target ≡ true)

abbrev pub depth : Located → ℕ
depth l = length (parts l.1)

abbrev pub AtMost : ℕ → Option (MountState × ℕ) → Type 0
AtMost d none = Unit
AtMost d (some (m, d')) = d' ≤ d

module _ (target : PurePath) where
  better_keeps :
      (l : Located) (best : Option (MountState × ℕ)) (d : ℕ)
      → AtMost d (better_mount target l best)
      → AtMost d best × (Covers target l → depth l ≤ d)
  better_keeps (m, p) none d h = (tt, λ c. ground arith)
  better_keeps (m, p) (some (m', d')) d h = (ground arith, λ c. ground arith)

  better_origin :
      (l : Located) (best : Option (MountState × ℕ)) {r : MountState × ℕ}
      → better_mount target l best ≡ some r
      → (best ≡ some r) ⊎ Covers target l × (l.0 ≡ r.0) × (depth l ≡ r.1)
  better_origin (m, p) none e = ground arith
  better_origin (m, p) (some b) e = ground arith

  deepest_bounds :
      (ls : List Located) (best : Option (MountState × ℕ)) {m : MountState} {d : ℕ}
      → deepest_mount target ls best ≡ some (m, d)
      → AtMost d best × All (λ l. Covers target l → depth l ≤ d) ls
  unfolding deepest_mount
  deepest_bounds [] best e = (rw e (omega arith), tt)
  deepest_bounds (l ∷ ls) best {d = d} e =
      let (below, rest) = deepest_bounds ls (better_mount target l best) e in
      let (keeps, here) = better_keeps l best d below in (keeps, (here, rest))

  deepest_origin :
      (ls : List Located) (best : Option (MountState × ℕ)) {r : MountState × ℕ}
      → deepest_mount target ls best ≡ some r
      → (best ≡ some r)
        ⊎ ((l : Located) × Memᴰ l ls × Covers target l × (l.0 ≡ r.0) × (depth l ≡ r.1))
  unfolding deepest_mount
  deepest_origin [] best e = inl e
  deepest_origin (l ∷ ls) best e = elim (deepest_origin ls (better_mount target l best) e) [
    | inl b ↦ elim (better_origin l best b) [
      | inl old ↦ inl old
      | inr (c, m, d) ↦ inr (l, Memᴰ.head refl, c, m, d)
    ]
    | inr (k, there, c, m, d) ↦ inr (k, Memᴰ.tail there, c, m, d)
  ]

  deepest_none :
      (ls : List Located) (best : Option (MountState × ℕ))
      → deepest_mount target ls best ≡ none
      → (best ≡ none) × All (λ l. ¬ Covers target l) ls
  unfolding deepest_mount
  deepest_none [] best e = (e, tt)
  deepest_none (l ∷ ls) best e =
      let (no_better, rest) = deepest_none ls (better_mount target l best) e in
      let (nothing, uncovered) = better_none l best no_better in (nothing, (uncovered, rest))
    where
      better_none :
          (k : Located) (o : Option (MountState × ℕ))
          → better_mount target k o ≡ none
          → (o ≡ none) × ¬ Covers target k
      better_none (m, p) none e = (refl, λ c. ground arith)
      better_none (m, p) (some b) e = (ground arith, λ c. ground arith)

  -- No mount stands exactly at the path.
  exact_none :
      (ls : List Located) → exact_mount target ls ≡ none → All (λ l. path_beq l.1 target ≡ false) ls
  unfolding exact_mount
  exact_none [] e = tt
  exact_none ((m, p) ∷ ls) e = elim (Bool-cases (path_beq p target)) [
    | inl same ↦ ground arith
    | inr other ↦ (other, exact_none ls (ground arith))
  ]

flavor_beq_refl : (f : Flavor) → flavor_beq f f ≡ true
flavor_beq_refl windows_flavor = refl
flavor_beq_refl posix_flavor = refl
flavor_beq_refl unc = refl
flavor_beq_refl unknown = refl

flavor_beq→eq : (f g : Flavor) → flavor_beq f g ≡ true → f ≡ g
flavor_beq→eq f g e = ground arith

-- A mount whose path reads so stands among the normalized ones, and no other does.
locate-kept :
    (paths : Pathlib) (m : MountState) (flavor : Flavor) (rest : List Located) {p : PurePath}
    {read : Option PurePath × Flavor}
    → read ≡ (some p, flavor)
    → locate_one paths m flavor read rest ≡ (m, p) ∷ rest
locate-kept paths m flavor rest e = rw (e, flavor_beq_refl flavor) refl

locate-origin :
    (paths : Pathlib) (m : MountState) (flavor : Flavor) (read : Option PurePath × Flavor)
    (rest : List Located) {l : Located}
    → Memᴰ l (locate_one paths m flavor read rest)
    → ((l.0 ≡ m) × (read ≡ (some l.1, flavor))) ⊎ Memᴰ l rest
locate-origin paths m flavor (none, f) rest h = inr h
locate-origin paths m flavor (some p, f) rest {l} h = elim (Bool-cases (flavor_beq f flavor)) [
  | inl same ↦ first_or_rest (flavor_beq→eq f flavor same) (rw same at h)
  | inr other ↦ inr (rw other at h)
]
  where
    first_or_rest :
        f ≡ flavor
        → Memᴰ l ((m, p) ∷ rest)
        → ((l.0 ≡ m) × (◌≡◌ {A = Option PurePath × Flavor} (some p, f) (some l.1, flavor)))
          ⊎ Memᴰ l rest
    first_or_rest same (Memᴰ.head here) =
        let path : p ≡ l.1 = ap (λ (x : Located). x.1) (sym here) in
        inl (
          ap (λ (x : Located). x.0) here,
          ap (λ g. (some p, g)) same ∙ ap (λ x. (some x, flavor)) path,
        )
    first_or_rest same (Memᴰ.tail there) = inr there

module _ (paths : Pathlib) (flavor : Flavor) where
  -- The mount's path reads as this path, of the flavor.
  abbrev pub Reads : MountState → PurePath → Type 0
  Reads m p = pure_absolute_path paths m.path ≡ (some p, flavor)

  normalized-listed :
      (ms : List MountState) {m : MountState} {p : PurePath}
      → Memᴰ m ms
      → Reads m p
      → Memᴰ (m, p) (normalized_mounts paths flavor ms)
  unfolding normalized_mounts
  normalized-listed [] h read = elim h [ ]
  normalized-listed (x ∷ ms) {m} {p} (Memᴰ.head here) read =
      let same : pure_absolute_path paths x.path ≡ (some p, flavor) =
        ap (λ y. pure_absolute_path paths y.path) (sym here) ∙ read in
      rw (locate-kept paths x flavor (normalized_mounts paths flavor ms) same)
        (Memᴰ.head (ap (λ y. (y, p)) here))
  normalized-listed (x ∷ ms) (Memᴰ.tail there) read =
      locate-tail x (pure_absolute_path paths x.path) (normalized_mounts paths flavor ms)
        (normalized-listed ms there read)
    where
      locate-tail :
          (x : MountState) (r : Option PurePath × Flavor) (rest : List Located) {l : Located}
          → Memᴰ l rest
          → Memᴰ l (locate_one paths x flavor r rest)
      locate-tail x (none, f) rest h = h
      locate-tail x (some p, f) rest h = elim (Bool-cases (flavor_beq f flavor)) [
        | inl same ↦ rw same (Memᴰ.tail h)
        | inr other ↦ rw other h
      ]

  normalized-origin :
      (ms : List MountState) {l : Located}
      → Memᴰ l (normalized_mounts paths flavor ms)
      → Memᴰ l.0 ms × Reads l.0 l.1
  unfolding normalized_mounts
  normalized-origin [] h = elim h [ ]
  normalized-origin (m ∷ ms) {l} h =
      elim (locate-origin paths m flavor (pure_absolute_path paths m.path)
        (normalized_mounts paths flavor ms) h) [
          | inl (here, read) ↦
              (Memᴰ.head here, ap (λ y. pure_absolute_path paths y.path) here ∙ read)
          | inr later ↦ let (there, read) = normalized-origin ms later in (Memᴰ.tail there, read)
        ]

-- A mount that stands for a path by a prefix: none stands at the path itself, and of the mounts that
-- are no root and whose path begins the path asked for, it is one with the most parts. Only mounts
-- whose path reads as one of the path's flavor count.
pub record IsDeepest (paths : Pathlib) (path : String) (mounts : List MountState)
    (mount : MountState) : Type 0 where
  pub target : PurePath
  pub flavor : Flavor
  pub reads : pure_absolute_path paths path ≡ (some target, flavor)
  pub no_exact :
      (m : MountState)
      → Memᴰ m mounts
      → (p : PurePath) → Reads paths flavor m p
      → path_beq p target ≡ false
  pub listed : Memᴰ mount mounts
  pub own_path : PurePath
  pub own_reads : Reads paths flavor mount own_path
  pub covers_target : Covers target (mount, own_path)
  pub deepest :
      (m : MountState)
      → Memᴰ m mounts
      → (p : PurePath) → Reads paths flavor m p
      → Covers target (m, p)
      → depth (m, p) ≤ depth (mount, own_path)

module _ (paths : Pathlib) (path : String) (mounts : List MountState) where
  resolution_chain :
      (exact : Option MountState) (best : Option (MountState × ℕ)) (m : MountState)
      → (resolution exact best).mount ≡ some m
      → (resolution exact best).covering_prefix ≡ true
      → (exact ≡ none) × (d : ℕ) × (best ≡ some (m, d))
  resolution_chain (some x) best m e c = cc
  resolution_chain none none m e c = cc
  resolution_chain none (some (x, d)) m e c = (refl, d, cc)

  abbrev PrefixChain : MountState → Option PurePath × Flavor → Type 0
  PrefixChain m read =
      (target : PurePath) × (flavor : Flavor) × (read ≡ (some target, flavor))
      × (exact_mount target (normalized_mounts paths flavor mounts) ≡ none)
      × (d : ℕ) × (deepest_mount target (normalized_mounts paths flavor mounts) none ≡ some (m, d))

  located_chain :
      (read : Option PurePath × Flavor) (m : MountState)
      → (resolve_located paths read mounts).mount ≡ some m
      → (resolve_located paths read mounts).covering_prefix ≡ true
      → PrefixChain m read
  located_chain (none, flavor) m e c = cc
  located_chain (some target, flavor) m e c =
      let located = normalized_mounts paths flavor mounts in
      let (exact, d, best) =
        resolution_chain (exact_mount target located) (deepest_mount target located none) m e c in
      (target, flavor, refl, exact, d, best)

  pub resolve_mount-IsDeepest :
      (m : MountState)
      → (resolve_mount paths path mounts).mount ≡ some m
      → (resolve_mount paths path mounts).covering_prefix ≡ true
      → IsDeepest paths path mounts m
  unfolding resolve_mount
  resolve_mount-IsDeepest m e c =
      let (target, flavor, reads, exact, d, best) =
        located_chain (pure_absolute_path paths path) m e c in
      let located = normalized_mounts paths flavor mounts in
      let (_, bounds) = deepest_bounds target located none best in
      elim (deepest_origin target located none best) [
        | inl nothing ↦ cc
        | inr (l, there, covering, same, deep) ↦
            let (member, own) = normalized-origin paths flavor mounts there in
            subst (IsDeepest paths path mounts) same (record {
              target = target;
              flavor = flavor;
              reads = reads;
              no_exact = λ x listed p read.
                  All-Mem (λ k. path_beq k.1 target ≡ false) located
                    (exact_none target located exact) (x, p)
                    (normalized-listed paths flavor mounts listed read);
              listed = member;
              own_path = l.1;
              own_reads = own;
              covers_target = covering;
              deepest = λ x listed p read.
                  All-Mem (λ k. Covers target k → depth k ≤ depth l) located (rw deep bounds) (x, p)
                    (normalized-listed paths flavor mounts listed read);
            })
      ]
