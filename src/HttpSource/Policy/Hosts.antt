-- ===== src/HttpSource/Policy/Hosts.antt =====
-- Hosts of a URL against the address policy.
use audio_engine_core.Base.{ℕ, ◌≡◌, ◌≢◌, refl, false, List, [], ◌∷◌, arith, inl, inr}
use audio_engine_core.Base.Actions.{Action}
use audio_engine_core.Base.Results.{Result, ok, err, Result-cases}
use audio_engine_core.HttpSource.{Bytes, ErrorKind}
use audio_engine_core.HttpSource.Policy.{
  SocketAddr, is_disallowed_ip, validate_ip, validate_all, resolve_and_validate_host,
}

abbrev pub AllAllowed : List SocketAddr → Type 0
AllAllowed [] = Unit
AllAllowed (x ∷ xs) = (is_disallowed_ip x.ip ≡ false) × AllAllowed xs

pub validate_all-AllAllowed :
    (xs : List SocketAddr) {u : Unit {0}} → validate_all xs ≡ ok u → AllAllowed xs
unfolding validate_all validate_ip
validate_all-AllAllowed [] e = tt
validate_all-AllAllowed (x ∷ xs) e = ground (arith, validate_all-AllAllowed xs {u = tt})

module _ {ℓ} {W : Type ℓ} (lookup : Bytes → ℕ → Action W ErrorKind (List SocketAddr)) where
  -- The addresses that a resolution passes on are those that the lookup found, at least one, and each
  -- one is allowed.
  pub resolve_and_validate_host-AllAllowed :
      (host : Bytes) (port : ℕ) (w : W) {xs : List SocketAddr}
      → (resolve_and_validate_host lookup host port w).1 ≡ ok xs
      → ((lookup host port w).1 ≡ ok xs) × (xs ≢ []) × AllAllowed xs
  unfolding resolve_and_validate_host
  resolve_and_validate_host-AllAllowed host port w {xs} e = passed (lookup host port w) refl
    where
      passed :
          (r : W × Result ErrorKind (List SocketAddr))
          → lookup host port w ≡ r
          → (r.1 ≡ ok xs) × (xs ≢ []) × AllAllowed xs
      passed (v, err kind) f = absurd (ground arith)
      passed (v, ok []) f = absurd (ground arith)
      passed (v, ok (x ∷ ys)) f = elim (Result-cases (validate_all (x ∷ ys))) [
        | inl (u, g) ↦
            let same : ◌≡◌ {A = List SocketAddr} (x ∷ ys) xs = ground arith in
            rw (← same) (refl, (λ n. cc n), validate_all-AllAllowed (x ∷ ys) {u = u} g)
        | inr (b, g) ↦ absurd (ground arith)
      ]
