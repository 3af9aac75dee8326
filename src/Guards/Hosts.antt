-- ===== src/Guards/Hosts.antt =====
-- Which requests AllowedHosts lets pass.
use framework_kyrux.Prelude.{
  ◌≡◌, refl, ◌↔◌, ◌⊎◌, inl, inr, String, Bool, true, false, List, [], ◌∷◌, Option, arith, str_eq,
  eq_iff, Bool-cases,
}
use framework_kyrux.Web.{Request}
use framework_kyrux.Guards.{next, allowed_of, has_host, request_host, allowed_hosts}

-- One of the hosts is "*".
abbrev pub HasStar : List String → Type 0
HasStar [] = ⊥
HasStar (h ∷ hs) = (h ≡ "*") ⊎ HasStar hs

-- One of the hosts is the given one, but for the case of its letters.
abbrev pub IsListed : (String → String) → String → List String → Type 0
IsListed to_lower host [] = ⊥
IsListed to_lower host (h ∷ hs) = (to_lower h ≡ host) ⊎ IsListed to_lower host hs

module _ (to_lower : String → String) where
  allowed_of-HasStar : (hs : List String) → (allowed_of to_lower hs).0 ≡ true → HasStar hs
  unfolding allowed_of
  allowed_of-HasStar [] h = ground arith
  allowed_of-HasStar (x ∷ hs) h = elim (Bool-cases (str_eq x "*")) [
    | inl e ↦ inl ((eq_iff x "*").0 e)
    | inr e ↦ inr (allowed_of-HasStar hs (rw e at h))
  ]

  HasStar-allowed_of : (hs : List String) → HasStar hs → (allowed_of to_lower hs).0 ≡ true
  unfolding allowed_of
  HasStar-allowed_of [] s = absurd s
  HasStar-allowed_of (x ∷ hs) (inl s) = rw ((eq_iff x "*").1 s) refl
  HasStar-allowed_of (x ∷ hs) (inr s) = elim (Bool-cases (str_eq x "*")) [
    | inl e ↦ rw e refl
    | inr e ↦ rw e (HasStar-allowed_of hs s)
  ]

  has_host-IsListed :
      (host : String) (hs : List String)
      → has_host host (allowed_of to_lower hs).1 ≡ true
      → IsListed to_lower host hs
  unfolding allowed_of has_host
  has_host-IsListed host [] h = ground arith
  has_host-IsListed host (x ∷ hs) h = elim (Bool-cases (str_eq x "*")) [
    | inl e ↦ let none_listed = rw e at h in absurd (ground arith)
    | inr e ↦ elim (Bool-cases (str_eq (to_lower x) host)) [
      | inl same ↦ inl ((eq_iff (to_lower x) host).0 same)
      | inr other ↦ inr (has_host-IsListed host hs (rw (e, other) at h))
    ]
  ]

  IsListed-has_host :
      (host : String) (hs : List String)
      → (allowed_of to_lower hs).0 ≡ false
      → IsListed to_lower host hs
      → has_host host (allowed_of to_lower hs).1 ≡ true
  unfolding allowed_of has_host
  IsListed-has_host host [] n s = absurd s
  IsListed-has_host host (x ∷ hs) n (inl s) = elim (Bool-cases (str_eq x "*")) [
    | inl e ↦ absurd (let star = rw e at n in ground arith)
    | inr e ↦ rw (e, (eq_iff (to_lower x) host).1 s) refl
  ]
  IsListed-has_host host (x ∷ hs) n (inr s) = elim (Bool-cases (str_eq x "*")) [
    | inl e ↦ absurd (let star = rw e at n in ground arith)
    | inr e ↦
        let rest = IsListed-has_host host hs (rw e at n) s in
        elim (Bool-cases (str_eq (to_lower x) host)) [
          | inl same ↦ rw (e, same) refl
          | inr other ↦ rw (e, other) rest
        ]
  ]

  module _ (split_host_port : String → Option String) where
    -- AllowedHosts calls the next handler exactly when debug is on, or "*" is one of the hosts, or
    -- the host of the request, without port and brackets and in lower case, is one of the hosts in
    -- lower case.
    pub allowed_hosts_iff :
        (hosts : List String) (debug : Bool) (request : Request)
        → (allowed_hosts split_host_port to_lower hosts debug request ≡ next tt) ↔ (
            (debug ≡ true)
            ⊎ HasStar hosts
            ⊎ IsListed to_lower (request_host split_host_port to_lower request) hosts)
    unfolding allowed_hosts
    allowed_hosts_iff hosts debug request = (to, from)
      where
        host : String
        host = request_host split_host_port to_lower request

        Open : Type 0
        Open = (debug ≡ true) ⊎ HasStar hosts ⊎ IsListed to_lower host hosts

        to : allowed_hosts split_host_port to_lower hosts debug request ≡ next tt → Open
        to h = elim (Bool-cases debug) [
          | inl d ↦ inl d
          | inr d ↦ elim (Bool-cases (allowed_of to_lower hosts).0) [
            | inl s ↦ inr (inl (allowed_of-HasStar hosts s))
            | inr s ↦ elim (Bool-cases (has_host host (allowed_of to_lower hosts).1)) [
              | inl l ↦ inr (inr (has_host-IsListed host hosts l))
              | inr l ↦ let barred = rw (d, s, l) at h in absurd (ground arith)
            ]
          ]
        ]

        from : Open → allowed_hosts split_host_port to_lower hosts debug request ≡ next tt
        from (inl d) = rw d refl
        from (inr (inl s)) = elim (Bool-cases debug) [
          | inl d ↦ rw d refl
          | inr d ↦ rw (d, HasStar-allowed_of hosts s) refl
        ]
        from (inr (inr l)) = elim (Bool-cases debug) [
          | inl d ↦ rw d refl
          | inr d ↦ elim (Bool-cases (allowed_of to_lower hosts).0) [
            | inl s ↦ rw (d, s) refl
            | inr s ↦ rw (d, s, IsListed-has_host host hosts s l) refl
          ]
        ]
