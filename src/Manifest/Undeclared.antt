-- ===== src/Manifest/Undeclared.antt =====
-- Allowlist detection: what `computeUndeclaredPackages` returns.
use cloudable.Base.{
  String, ◌≡◌, refl, Bool, true, not, ◌&&◌, List, [], ◌∷◌, map, text_eq, arith, filter, eq_iff,
}
use cloudable.Manifest.{
  ResolvedManifestEntry, has, declared_packages, undeclared_from, compute_undeclared_packages,
}

abbrev pub names_of : List ResolvedManifestEntry → List String
names_of manifest = map (λ e. e.package_name) manifest

-- No name stands twice.
abbrev pub distinct : List String → Bool
distinct [] = true
distinct (n ∷ ns) = not (has n ns) && distinct ns

has-undeclared_from :
    (declared seen names : List String) (n : String)
    → has n (undeclared_from declared seen names)
      ≡ (has n names && not (has n declared) && not (has n seen))
unfolding undeclared_from
has-undeclared_from declared seen [] n = refl
has-undeclared_from declared seen (m ∷ names) n = ground (
  arith,
  has-undeclared_from declared (m ∷ seen) names n,
  has-undeclared_from declared seen names n,
  eq_iff m n,
)

-- A package is returned exactly if it is reported and not among the declared packages: an
-- excluded entry does not count as declared.
has-compute_undeclared_packages :
    (manifest : List ResolvedManifestEntry) (reported : List String) (n : String)
    → has n (compute_undeclared_packages manifest reported)
      ≡ (has n reported && not (has n (names_of (declared_packages manifest))))
unfolding compute_undeclared_packages declared_packages
has-compute_undeclared_packages manifest reported n =
    ground
      (arith, has-undeclared_from (names_of (filter (λ e. not e.excluded) manifest)) [] reported n)

distinct-undeclared_from :
    (declared seen names : List String) → distinct (undeclared_from declared seen names) ≡ true
unfolding undeclared_from
distinct-undeclared_from declared seen [] = refl
distinct-undeclared_from declared seen (m ∷ names) = ground (
  arith,
  has-undeclared_from declared (m ∷ seen) names m,
  distinct-undeclared_from declared (m ∷ seen) names,
  distinct-undeclared_from declared seen names,
  eq_iff m m,
)

-- No package is returned twice, however often the agent reports it.
distinct-compute_undeclared_packages :
    (manifest : List ResolvedManifestEntry) (reported : List String)
    → distinct (compute_undeclared_packages manifest reported) ≡ true
unfolding compute_undeclared_packages
distinct-compute_undeclared_packages manifest reported = distinct-undeclared_from _ [] reported
