-- ===== src/Gateway/Headers/Laws.antt =====
-- What every header of a dictionary satisfies, and what is read back.
use video_site.Common.{
  String, ◌≡◌, refl, Bool, true, some, [], ◌∷◌, ◌==◌, text_eq, All, arith, if◌then◌else◌,
}
use video_site.Gateway.Headers.{Headers, set_header, update, get, collect, set_default}

module _ (p : String × String → Bool) where
  abbrev pub Every : Headers → Type 0
  Every headers = All (λ h. p h ≡ true) headers

  pub set_header-Every :
      (headers : Headers) (n v : String)
      → Every headers
      → p (n, v) ≡ true
      → Every (set_header headers n v)
  unfolding set_header
  set_header-Every [] n v h new = (new, tt)
  set_header-Every ((m, u) ∷ rest) n v h new = ground (arith, set_header-Every rest n v h.1 new)

  pub update-Every :
      (headers others : Headers) → Every headers → Every others → Every (update headers others)
  unfolding update
  update-Every headers [] h g = h
  update-Every headers ((n, v) ∷ others) h g =
      update-Every (set_header headers n v) others (set_header-Every headers n v h g.0) g.1

  pub set_default-Every :
      (headers : Headers) (n v : String)
      → Every headers
      → p (n, v) ≡ true
      → Every (set_default headers n v)
  unfolding set_default
  set_default-Every headers n v h new = ground (arith, set_header-Every headers n v h new)

  -- A collection keeps what its test lets through.
  pub collect-Every :
      (keeps : String → Bool) (dict items : Headers)
      → ((n v : String) → keeps n ≡ true → p (n, v) ≡ true)
      → Every dict
      → Every (collect keeps dict items)
  unfolding collect
  collect-Every keeps dict [] good h = h
  collect-Every keeps dict ((n, v) ∷ items) good h =
      collect-Every keeps (if keeps n then set_header dict n v else dict) items good
        (ground (arith, good n v, set_header-Every dict n v h))

pub get-set_header :
    (headers : Headers) (n v m : String)
    → get (set_header headers n v) m ≡ (if n == m then some v else get headers m)
unfolding get set_header
get-set_header [] n v m = refl
get-set_header ((k, u) ∷ rest) n v m = ground (
  arith,
  get-set_header rest n v m,
  text_eq.beq_iff k n,
  text_eq.beq_iff n m,
  text_eq.beq_iff k m,
)

pub get-set_default :
    (headers : Headers) (n v m w : String)
    → get headers m ≡ some w
    → get (set_default headers n v) m ≡ some w
unfolding set_default
get-set_default headers n v m w found =
    ground (arith, get-set_header headers n v m, text_eq.beq_iff n m)
