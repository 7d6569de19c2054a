-- ===== src/IpDetect/Best.antt =====
-- The address that is selected is the best one: internal/ipdetect/ipdetect.go, `SelectBestIP` and
-- `detectPrimaryWithExclusions`.
use docker_swarm_cluster_con.Prelude.{
  ℕ, suc, ◌≤◌, ◌<◌, String, ◌≡◌, ◌≢◌, refl, List, [], ◌∷◌, Option, none, some, ok, err, arith, leb,
  if◌then◌else◌, All, Option-cases, inl, inr, get_elem?, take, Bool-cases, ap, ◌∙◌, sym, subst,
  leb→le, ◌↔◌,
}
use docker_swarm_cluster_con.IpDetect.Classes.{IsUsable, text_class_iff}
use docker_swarm_cluster_con.IpDetect.{
  Ip, IpClass, class_other, class_loopback, class_rfc1918, class_cgnat, Buckets, put, fill, pick,
  Subnet, text_class, select_best_ip, primary_class, all_ips, detect_primary, Interface,
  or_no_address, DetectError,
}

-- The order of preference of the package's documentation.
abbrev pub rank : IpClass → ℕ
rank class_cgnat = 3
rank class_rfc1918 = 2
rank class_other = 1
rank class_loopback = 0

-- The class of an element is none, or ranks at most, or below, the given one.
abbrev pub AtMost : IpClass → Option IpClass → Type 0
AtMost k none = Unit
AtMost k (some j) = rank j ≤ rank k

abbrev pub Below : IpClass → Option IpClass → Type 0
Below k none = Unit
Below k (some j) = rank j < rank k

AtMost-trans : (j k : IpClass) (o : Option IpClass) → rank j ≤ rank k → AtMost j o → AtMost k o
AtMost-trans j k none le h = tt
AtMost-trans j k (some l) le h = omega arith

abbrev Found : Type 0 → Type 0
Found A = Option (IpClass × A)

module _ {A : Type 0} where
  -- The reference: the earliest element among those of the highest rank.
  better : IpClass → A → Found A → Found A
  better k x none = some (k, x)
  better k x (some (j, y)) = if leb (rank j) (rank k) then some (k, x) else some (j, y)

  best : (A → Option IpClass) → List A → Found A
  unfolding better
  best class [] = none
  best class (x ∷ xs) =
      let rest = best class xs in elim (class x) [ none ↦ rest | some k ↦ better k x rest ]

  value : Found A → Option A
  value none = none
  value (some (k, x)) = some x

  -- `pick` with the class of what it takes.
  pick_class : Buckets A → Found A
  pick_class b = elim b.cgnat [
    | x ∷ _ ↦ some (class_cgnat, x)
    | [] ↦ elim b.rfc1918 [
      | x ∷ _ ↦ some (class_rfc1918, x)
      | [] ↦ elim b.other [
        | x ∷ _ ↦ some (class_other, x)
        | [] ↦ elim b.loopback [ x ∷ _ ↦ some (class_loopback, x) | [] ↦ none ]
      ]
    ]
  ]

  value-pick_class : (b : Buckets A) → value (pick_class b) ≡ pick b
  unfolding value pick_class pick
  value-pick_class b = ground arith

  pick_class-put :
      (k : IpClass) (x : A) (b : Buckets A) → pick_class (put k x b) ≡ better k x (pick_class b)
  unfolding pick_class put better
  pick_class-put class_cgnat x b = ground arith
  pick_class-put class_rfc1918 x b = ground arith
  pick_class-put class_other x b = ground arith
  pick_class-put class_loopback x b = ground arith

  pick_class-fill :
      (class : A → Option IpClass) (xs : List A) → pick_class (fill class xs) ≡ best class xs
  unfolding fill best
  pick_class-fill class [] = unfold pick_class in refl
  pick_class-fill class (x ∷ xs) = elim (Option-cases (class x)) [
    | inl e ↦ rw (e, fill, best) (pick_class-fill class xs)
    | inr (k, e) ↦
        rw (e, fill, best)
          (pick_class-put k x (fill class xs) ∙ ap (better k x) (pick_class-fill class xs))
  ]

  pick-fill :
      (class : A → Option IpClass) (xs : List A) → pick (fill class xs) ≡ value (best class xs)
  pick-fill class xs = sym (value-pick_class (fill class xs)) ∙ ap value (pick_class-fill class xs)

  -- x, of class k, is the first of the highest class among the given elements.
  abbrev pub Best : (A → Option IpClass) → List A → IpClass → A → Type 0
  Best class xs k x =
      (i : ℕ) × (get_elem? xs i ≡ some x)
      × (class x ≡ some k)
      × All (λ y. AtMost k (class y)) xs
      × All (λ y. Below k (class y)) (take i xs)

  abbrev Spec : (A → Option IpClass) → List A → Found A → Type 0
  Spec class xs none = All (λ y. class y ≡ none) xs
  Spec class xs (some (k, x)) = Best class xs k x

  none-AtMost :
      (class : A → Option IpClass) (k : IpClass) (xs : List A)
      → All (λ y. class y ≡ none) xs
      → All (λ y. AtMost k (class y)) xs
  none-AtMost class k [] h = tt
  none-AtMost class k (y ∷ ys) h = (subst (AtMost k) (sym h.0) tt, none-AtMost class k ys h.1)

  All-AtMost-trans :
      (class : A → Option IpClass) (j k : IpClass) (xs : List A)
      → rank j ≤ rank k
      → All (λ y. AtMost j (class y)) xs
      → All (λ y. AtMost k (class y)) xs
  All-AtMost-trans class j k [] le h = tt
  All-AtMost-trans class j k (y ∷ ys) le h =
      (AtMost-trans j k (class y) le h.0, All-AtMost-trans class j k ys le h.1)

  Spec-skip :
      (class : A → Option IpClass) (y : A) (ys : List A) (f : Found A)
      → class y ≡ none
      → Spec class ys f
      → Spec class (y ∷ ys) f
  Spec-skip class y ys none e h = (e, h)
  Spec-skip class y ys (some (k, x)) e (i, at, hk, hi, ea) =
      (suc i, at, hk, (subst (AtMost k) (sym e) tt, hi), (subst (Below k) (sym e) tt, ea))

  Spec-better :
      (class : A → Option IpClass) (j : IpClass) (y : A) (ys : List A) (f : Found A)
      → class y ≡ some j
      → Spec class ys f
      → Spec class (y ∷ ys) (better j y f)
  unfolding better
  Spec-better class j y ys none e h =
      (0, refl, e, (subst (AtMost j) (sym e) (omega arith), none-AtMost class j ys h), tt)
  Spec-better class j y ys (some (k, x)) e (i, at, hk, hi, ea) =
      elim (Bool-cases (leb (rank k) (rank j))) [
        | inl le ↦ rw le (
          0,
          refl,
          e,
          (
            subst (AtMost j) (sym e) (omega arith),
            All-AtMost-trans class k j ys (leb→le (rank k) (rank j) le) hi,
          ),
          tt,
        )
        | inr gt ↦ rw gt (
            let lt : rank j < rank k = ground (arith, gt) in
            (
              suc i,
              at,
              hk,
              (subst (AtMost k) (sym e) (omega arith), hi),
              (subst (Below k) (sym e) (omega arith), ea),
            ))
      ]

  best-Spec : (class : A → Option IpClass) (xs : List A) → Spec class xs (best class xs)
  unfolding best
  best-Spec class [] = tt
  best-Spec class (y ∷ ys) = elim (Option-cases (class y)) [
    | inl n ↦ rw (n, best) (Spec-skip class y ys (best class ys) n (best-Spec class ys))
    | inr (j, e) ↦ rw (e, best) (Spec-better class j y ys (best class ys) e (best-Spec class ys))
  ]

  value-some :
      (class : A → Option IpClass) (xs : List A) (f : Found A) {x : A}
      → Spec class xs f
      → value f ≡ some x
      → (k : IpClass) × Best class xs k x
  unfolding value
  value-some class xs none h e = cc
  value-some class xs (some (k, y)) {x} h e = let q : y ≡ x = cc in (k, subst (Best class xs k) q h)

  value-none :
      (class : A → Option IpClass) (xs : List A) (f : Found A)
      → Spec class xs f
      → value f ≡ none
      → All (λ y. class y ≡ none) xs
  unfolding value
  value-none class xs none h e = h
  value-none class xs (some (k, y)) h e = cc

  pick-fill-some :
      (class : A → Option IpClass) (xs : List A) {x : A}
      → pick (fill class xs) ≡ some x
      → (k : IpClass) × Best class xs k x
  pick-fill-some class xs {x} e =
      value-some class xs (best class xs) {x = x} (best-Spec class xs)
        (sym (pick-fill class xs) ∙ e)

  pick-fill-none :
      (class : A → Option IpClass) (xs : List A)
      → pick (fill class xs) ≡ none
      → All (λ y. class y ≡ none) xs
  pick-fill-none class xs e =
      value-none class xs (best class xs) (best-Spec class xs) (sym (pick-fill class xs) ∙ e)

text_class-empty :
    (parse_ip : String → Option Ip) (docker : List Subnet) (s : String) (k : IpClass)
    → parse_ip "" ≡ none
    → s ≡ ""
    → ¬ (text_class parse_ip docker s ≡ some k)
unfolding text_class
text_class-empty parse_ip docker s k h empty e = ground (arith, h, empty, e)

-- The text that `SelectBestIP` returns is the first of the highest class among the usable ones; it
-- returns the empty text, which is no address, exactly when there is none. A text is usable, with a
-- class, exactly if it is an IPv4 address that does not begin with 127 and lies in none of Docker's
-- networks; the class is that of the address's bytes.
pub select_best_ip-Best :
    (parse_ip : String → Option Ip) (ips : List String) (docker : List Subnet)
    → parse_ip "" ≡ none
    → ((select_best_ip parse_ip ips docker ≢ "")
        → (k : IpClass) × Best
            (text_class parse_ip docker)
            ips
            k
            (select_best_ip parse_ip ips docker))
      × ((select_best_ip parse_ip ips docker ≡ "")
          → All (λ s. text_class parse_ip docker s ≡ none) ips)
      × ((s : String) (k : IpClass)
          → (text_class parse_ip docker s ≡ some k) ↔ IsUsable parse_ip docker s k)
unfolding select_best_ip
select_best_ip-Best parse_ip ips docker h =
    elim (Option-cases (pick (fill (text_class parse_ip docker) ips))) [
      | inl n ↦
          rw (n, select_best_ip)
            (
              (λ ne. absurd (ne refl)),
              (λ e. pick-fill-none (text_class parse_ip docker) ips n),
              (λ s k. text_class_iff parse_ip docker s k),
            )
      | inr (s, e) ↦
          rw (e, select_best_ip)
            (
              (λ ne. pick-fill-some (text_class parse_ip docker) ips {x = s} e),
              (λ empty.
                  let (k, b) = pick-fill-some (text_class parse_ip docker) ips {x = s} e in
                  absurd (text_class-empty parse_ip docker s k h empty b.2)),
              (λ t k. text_class_iff parse_ip docker t k),
            )
    ]

or_no_address-ok : (o : Option Ip) {ip : Ip} → or_no_address o ≡ ok ip → o ≡ some ip
unfolding or_no_address
or_no_address-ok none h = cc
or_no_address-ok (some x) h = cc

or_no_address-err : (o : Option Ip) {e : DetectError} → or_no_address o ≡ err e → o ≡ none
unfolding or_no_address
or_no_address-err none h = refl
or_no_address-err (some x) h = cc

-- `detectPrimaryWithExclusions` returns the first address of the highest class among those of the
-- interfaces that are up, IPv6 addresses and those in Docker's networks left out; given a list of
-- interfaces it fails only if no such address is left.
pub detect_primary-Best :
    (docker : List Subnet) (is : List Interface)
    → ((ip : Ip)
        → detect_primary docker (some is) ≡ ok ip
        → (k : IpClass) × Best (primary_class docker) (all_ips is) k ip)
      × ((e : DetectError)
          → detect_primary docker (some is) ≡ err e
          → All (λ ip. primary_class docker ip ≡ none) (all_ips is))
unfolding detect_primary
detect_primary-Best docker is = (
  λ ip h. pick-fill-some (primary_class docker) (all_ips is) {x = ip} (or_no_address-ok _ h),
  λ e h. pick-fill-none (primary_class docker) (all_ips is) (or_no_address-err _ {e = e} h),
)
