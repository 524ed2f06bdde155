-- ===== src/Packages/Filed.antt =====
-- What a `PackageCatalog` of src/local_agent_dispatch/packages/catalog.py has after its manifests were
-- added.
use local_agent_dispatch.Packages.Catalog.{
  PackageCatalog, versions_of, conflicts, add, add_all, manifest_greater, available,
}
use local_agent_dispatch.Packages.Manifest.{Manifest}
use local_agent_dispatch.Packages.Version.{resolution_error, Version, Operator}
use local_agent_dispatch.Prelude.Dict
use local_agent_dispatch.Prelude.Dict.{Dict, values, get-put}
use local_agent_dispatch.Prelude.Keys.{◌=?◌, string_eq}
use local_agent_dispatch.Prelude.Outcome.{
  returned, >>=-eq-returned, returned-injective, raise_if-eq-returned,
}
use local_agent_dispatch.Prelude.Sort.{In-sort}
use local_agent_dispatch.Prelude.{
  String, ◌≡◌, refl, sym, ap, ◌∙◌, subst, ◌⊎◌, inl, inr, Bool, true, false, Option, none, some,
  List, [], ◌∷◌, In, if◌then◌else◌,
}

In-put :
    (p : String × Manifest) (k : String) (m : Manifest) (d : Dict String Manifest)
    → In p (Dict.put k m d)
    → In p d ⊎ (p.1 ≡ m)
unfolding Dict.put
In-put p k m [] (inl here) = inr (ap (λ q. q.1) here)
In-put p k m [] (inr there) = absurd there
In-put p k m ((j, w) ∷ d) h = placed (j =? k) h (In-put p k m d)
  where
    placed :
        (b : Bool)
        → In p (if b then (j, m) ∷ d else (j, w) ∷ Dict.put k m d)
        → (In p (Dict.put k m d) → In p d ⊎ (p.1 ≡ m))
        → In p ((j, w) ∷ d) ⊎ (p.1 ≡ m)
    placed true (inl here) rest = inr (ap (λ q. q.1) here)
    placed true (inr there) rest = inl (inr there)
    placed false (inl here) rest = inl (inl here)
    placed false (inr there) rest = elim (rest there) [
      | inl old ↦ inl (inr old)
      | inr new ↦ inr new
    ]

-- Each entry stands under the name of its manifest, which is one of those that were added.
abbrev pub IsFiled : (Manifest → Type 0) → PackageCatalog → Type 0
IsFiled Added catalog =
    (name : String) (p : String × Manifest)
    → In p (versions_of name catalog)
    → (p.1.name ≡ name) × Added p.1

versions_of-put :
    (name k : String) (versions : Dict String Manifest) (catalog : PackageCatalog)
    → versions_of name (Dict.put k versions catalog)
      ≡ (if k =? name then versions else versions_of name catalog)
versions_of-put name k versions catalog =
    ap (λ o. elim o [ none ↦ [] | some d ↦ d ]) (get-put k name versions catalog)
    ∙ picked (k =? name) (Dict.get name catalog)
  where
    picked :
        (b : Bool) (o : Option (Dict String Manifest))
        → (elim (if b then some versions else o) [ none ↦ [] | some d ↦ d ])
          ≡ (if b then versions else elim o [ none ↦ [] | some d ↦ d ])
    picked true o = refl
    picked false o = refl

add-IsFiled :
    (Added : Manifest → Type 0) (m : Manifest) (catalog after : PackageCatalog)
    → IsFiled Added catalog
    → Added m
    → add m catalog ≡ returned after
    → IsFiled Added after
unfolding add
add-IsFiled Added m catalog after filed added h name p there =
    let versions = versions_of m.name catalog in
    let (_, h1) =
      raise_if-eq-returned (conflicts m (Dict.get m.version versions)) resolution_error _ h in
    let put =
      ap (versions_of name) (sym (returned-injective h1))
      ∙ versions_of-put name m.name (Dict.put m.version m versions) catalog in
    placed (m.name =? name) refl (subst (In p) put there)
  where
    placed :
        (b : Bool)
        → (m.name =? name) ≡ b
        → In p (
            if b
            then Dict.put m.version m (versions_of m.name catalog)
            else versions_of name catalog)
        → (p.1.name ≡ name) × Added p.1
    placed false other there = filed name p there
    placed true same there =
        let is_name = (string_eq.beq_iff m.name name).0 same in
        elim (In-put p m.version m (versions_of m.name catalog) there) [
          | inl old ↦ filed name p (subst (λ n. In p (versions_of n catalog)) is_name old)
          | inr new ↦ (ap (λ x. x.name) new ∙ is_name, subst Added (sym new) added)
        ]

add_all-IsFiled :
    (Added : Manifest → Type 0) (ms : List Manifest) (catalog after : PackageCatalog)
    → IsFiled Added catalog
    → ((m : Manifest) → In m ms → Added m)
    → add_all ms catalog ≡ returned after
    → IsFiled Added after
unfolding add_all
add_all-IsFiled Added [] catalog after filed added h =
    subst (IsFiled Added) (returned-injective h) filed
add_all-IsFiled Added (m ∷ ms) catalog after filed added h =
    let (mid, h1, h2) = >>=-eq-returned (add m catalog) _ h in
    add_all-IsFiled Added ms mid after
      (add-IsFiled Added m catalog mid filed (added m (inl refl)) h1)
      (λ k there. added k (inr there)) h2

In-values :
    (m : Manifest) (d : Dict String Manifest)
    → In m (values d)
    → (p : String × Manifest) × In p d × (p.1 ≡ m)
In-values m [] h = absurd h
In-values m (q ∷ d) (inl here) = (q, inl refl, sym here)
In-values m (q ∷ d) (inr there) = let (p, later, is) = In-values m d there in (p, inr later, is)

-- Of a catalog that was made of manifests: what is available under a name is one of them, and of that
-- name.
pub available-IsFiled :
    (parse_version : String → Option Version)
    (clauses_of : String → List (Option (Operator × String))) (ms : List Manifest)
    (catalog : PackageCatalog) (name : String) (m : Manifest)
    → add_all ms [] ≡ returned catalog
    → In m (available parse_version clauses_of name catalog)
    → (m.name ≡ name) × In m ms
unfolding available Dict.get
available-IsFiled parse_version clauses_of ms catalog name m h there =
    let filed =
      add_all-IsFiled (λ k. In k ms) ms [] catalog (λ n p none_there. absurd none_there)
        (λ k k_there. k_there) h in
    let (p, in_versions, is_m) = In-values m (versions_of name catalog) (
      (In-sort (manifest_greater parse_version clauses_of) m (values (versions_of name catalog))).0
        there) in
    let (named, added) = filed name p in_versions in
    (ap (λ x. x.name) (sym is_m) ∙ named, subst (λ x. In x ms) is_m added)
