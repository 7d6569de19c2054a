-- ===== src/Prelude/Action.antt =====
-- Code that acts on the world and may fail: a Go function with an `error` result over a state `W`.
-- The operators stand beside those of `Outcome`, for the `do` blocks of such code.
use mathlib.Core.Path.{◌≡◌, ap, ◌∙◌, subst}
use mathlib.Core.Logic.{inl, inr}
use mathlib.Core.List.{List, [], ◌∷◌}
use native.Mathlib.Omega.{arith}
use docker_swarm_cluster_con.Prelude.Outcome.{Result, ok, err, Result-cases}

abbrev pub Action : Type 0 → Type 0 → Type 0 → Type 0
Action W E A = W → Result E A × W

infixl 5 ◌>>=◌ ◌>>◌
unfoldable pub ◌>>=◌ : {W E A B : Type 0} → Action W E A → (A → Action W E B) → Action W E B
◌>>=◌ m k w = let (r, w₁) = m w in elim r [ ok a ↦ k a w₁ | err e ↦ (err e, w₁) ]

abbrev pub ◌>>◌ : {W E B : Type 0} → Action W E (Unit {0}) → Action W E B → Action W E B
m >> k = m >>= λ _. k

unfoldable pub return : {W E A : Type 0} → A → Action W E A
return a w = (ok a, w)

unfoldable pub fail : {W E A : Type 0} → E → Action W E A
fail e w = (err e, w)

-- `fmt.Errorf("...: %w", err)`
unfoldable pub wrap : {W E F A : Type 0} → (E → F) → Action W E A → Action W F A
wrap f m w = let (r, w₁) = m w in elim r [ ok a ↦ (ok a, w₁) | err e ↦ (err (f e), w₁) ]

-- A call whose error is only logged.
unfoldable pub best_effort : {W E F A : Type 0} → Action W E A → Action W F (Unit {0})
best_effort m w = (ok tt, (m w).1)

-- A loop over a slice whose body can end the function with an error.
unfoldable pub each :
    {W E A : Type 0} → (A → Action W E (Unit {0})) → List A → Action W E (Unit {0})
each f [] w = (ok tt, w)
each f (x ∷ xs) w = let (r, w₁) = f x w in elim r [ ok _ ↦ each f xs w₁ | err e ↦ (err e, w₁) ]

-- A loop over a slice that changes the world and cannot fail.
abbrev pub all_next : {W A : Type 0} → (A → W → W) → List A → W → W
all_next next [] w = w
all_next next (x ∷ xs) w = all_next next xs (next x w)

-- Whatever the result is, the action keeps the property.
pub record Keeps {W E A : Type 0} (I : W → Type 0) (m : Action W E A) : Type 0 where
  pub at : (w : W) → I w → I (m w).1

-- If the action succeeds, its result and the world have the property.
pub record Gives {W E A : Type 0} (m : Action W E A) (Q : A → W → Type 0) : Type 0 where
  pub at : (w w' : W) (a : A) → m w ≡ (ok a, w') → Q a w'

module _ {W E A B : Type 0} where
  pub bind-ok :
      (m : Action W E A) (k : A → Action W E B) (w w' : W) (b : B)
      → (m >>= k) w ≡ (ok b, w')
      → (a : A) × (w₁ : W) × (m w ≡ (ok a, w₁)) × (k a w₁ ≡ (ok b, w'))
  unfolding ◌>>=◌
  bind-ok m k w w' b h = elim (Result-cases (m w).0) [
    | inl (a, e) ↦ (a, (m w).1, ground arith, ground arith)
    | inr (x, e) ↦ ground arith
  ]

  pub bind-step :
      (m : Action W E A) (k : A → Action W E B) (w w₁ : W) (a : A)
      → m w ≡ (ok a, w₁)
      → (m >>= k) w ≡ k a w₁
  unfolding ◌>>=◌
  bind-step m k w w₁ a e = ground arith

  pub bind-Gives :
      {R : B → W → Type 0} (m : Action W E A) (k : A → Action W E B)
      → ((a : A) → Gives (k a) R)
      → Gives (m >>= k) R
  bind-Gives m k g = record {
    at = λ w w' b h. let (a, w₁, e, e') = bind-ok m k w w' b h in (g a).at w₁ w' b e';
  }

  pub bind-Keeps :
      {I : W → Type 0} (m : Action W E A) (k : A → Action W E B)
      → Keeps I m
      → ((a : A) → Keeps I (k a))
      → Keeps I (m >>= k)
  unfolding ◌>>=◌
  bind-Keeps {I} m k f g = record {
    at = λ w i. elim (Result-cases (m w).0) [
      | inl (a, e) ↦ rw (e, ◌>>=◌) ((g a).at (m w).1 (f.at w i))
      | inr (x, e) ↦ rw (e, ◌>>=◌) (f.at w i)
    ];
  }

module _ {W E A : Type 0} {I : W → Type 0} where
  pub return-Keeps : (a : A) → Keeps I (return {E = E} a)
  unfolding return
  return-Keeps a = record { at = λ w i. i }

  pub fail-Keeps : (e : E) → Keeps I (fail {A = A} e)
  unfolding fail
  fail-Keeps e = record { at = λ w i. i }

  pub best_effort-Keeps :
      {F : Type 0} (m : Action W E A) → Keeps I m → Keeps I (best_effort {F = F} m)
  unfolding best_effort
  best_effort-Keeps m k = record { at = k.at }

  pub wrap-Keeps : {F : Type 0} (f : E → F) (m : Action W E A) → Keeps I m → Keeps I (wrap f m)
  unfolding wrap
  wrap-Keeps f m k = record {
    at = λ w i. elim (Result-cases (m w).0) [
      | inl (a, e) ↦ rw (e, wrap) (k.at w i)
      | inr (x, e) ↦ rw (e, wrap) (k.at w i)
    ];
  }

  pub each-Keeps :
      (f : A → Action W E (Unit {0})) (xs : List A)
      → ((x : A) → Keeps I (f x))
      → Keeps I (each f xs)
  unfolding each
  each-Keeps f [] k = record { at = λ w i. i }
  each-Keeps f (x ∷ xs) k = record {
    at = λ w i. elim (Result-cases (f x w).0) [
      | inl (a, e) ↦ rw (e, each) ((each-Keeps f xs k).at (f x w).1 ((k x).at w i))
      | inr (y, e) ↦ rw (e, each) ((k x).at w i)
    ];
  }

pub ruleset keeps_rules =
    (return-Keeps, fail-Keeps, best_effort-Keeps, wrap-Keeps, each-Keeps, bind-Keeps)

module _ {W E A : Type 0} where
  pub wrap-Gives :
      {F : Type 0} {Q : A → W → Type 0} (f : E → F) (m : Action W E A)
      → Gives m Q
      → Gives (wrap f m) Q
  unfolding wrap
  wrap-Gives f m g = record {
    at = λ w w' a h. elim (Result-cases (m w).0) [
      | inl (b, e) ↦ g.at w w' a (ground arith)
      | inr (x, e) ↦ ground arith
    ];
  }

module _ {W E A B : Type 0} where
  -- What the first step made is kept by the rest.
  pub bind-Gives_kept :
      {Q : W → Type 0} (m : Action W E A) (k : A → Action W E B)
      → Gives m (λ _. Q)
      → ((a : A) → Keeps Q (k a))
      → Gives (m >>= k) (λ _. Q)
  bind-Gives_kept {Q} m k g c = record {
    at = λ w w' b h.
        let (a, w₁, e, e') = bind-ok m k w w' b h in
        subst Q (ap (λ p. p.1) e') ((c a).at w₁ (g.at w w₁ a e));
  }

-- If the action succeeds, it does what the pure function does.
pub record Moves {W E A : Type 0} (m : Action W E A) (next : W → A × W) : Type 0 where
  pub at : (w w' : W) (a : A) → m w ≡ (ok a, w') → (a, w') ≡ next w

module _ {W E A B : Type 0} where
  pub bind-Moves :
      {next : W → A × W} {then_next : A → W → B × W} (m : Action W E A) (k : A → Action W E B)
      → Moves m next
      → ((a : A) → Moves (k a) (then_next a))
      → Moves (m >>= k) (λ w. then_next (next w).0 (next w).1)
  bind-Moves {next} {then_next} m k f g = record {
    at = λ w w' b h.
        let (a, w₁, e, e') = bind-ok m k w w' b h in
        (g a).at w₁ w' b e' ∙ ap (λ p. then_next p.0 p.1) (f.at w w₁ a e);
  }

module _ {W E A : Type 0} where
  pub wrap-Moves :
      {F : Type 0} {next : W → A × W} (f : E → F) (m : Action W E A)
      → Moves m next
      → Moves (wrap f m) next
  unfolding wrap
  wrap-Moves f m g = record {
    at = λ w w' a h. elim (Result-cases (m w).0) [
      | inl (b, e) ↦ g.at w w' a (ground arith)
      | inr (x, e) ↦ ground arith
    ];
  }

-- A loop over a slice, each turn of which does what the pure function does.
module _ {W E A : Type 0} (f : A → Action W E (Unit {0})) (next : A → W → W)
    (moves : (x : A) → Moves (f x) (λ w. (tt, next x w))) where
  each-next_at : (xs : List A) (w w' : W) → each f xs w ≡ (ok tt, w') → w' ≡ all_next next xs w
  unfolding each
  each-next_at [] w w' h = ground arith
  each-next_at (x ∷ xs) w w' h = elim (Result-cases (f x w).0) [
    | inr (y, e) ↦ ground arith
    | inl (b, e) ↦
        let first = (moves x).at w (f x w).1 tt (ground arith) in
        let ih = each-next_at xs (f x w).1 w' (ground arith) in
        ih ∙ ap (λ p. all_next next xs p.1) first
  ]

  pub each-Moves : (xs : List A) → Moves (each f xs) (λ w. (tt, all_next next xs w))
  each-Moves xs = record { at = λ w w' a h. ap (λ w. (tt, w)) (each-next_at xs w w' h) }
