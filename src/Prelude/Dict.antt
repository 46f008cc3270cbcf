-- ===== src/Prelude/Dict.antt =====
-- Python's `dict`: an association list in the order of insertion, over keys that an instance compares.
use Prim.Native.Nat.{ℕ}
use mathlib.Core.Path.{◌≡◌, refl}
use mathlib.Core.Logic.{◌↔◌, inl, inr}
use mathlib.Core.Bool.{Bool, true, false}
use mathlib.Core.Option.{Option, none, some}
use mathlib.Core.List.{List, [], ◌∷◌, ◌++◌}
use native.Mathlib.Omega.{arith}
use python_thin_client.Prelude.Tests.{if◌then◌else◌, ==_iff, Bool-cases}
use python_thin_client.Prelude.Tests
use python_thin_client.Prelude.Int.{ℤ, pos, negsuc}
use python_thin_client.Prelude.Numbers.{eq_ℤ}

pub record Key {ℓ} (K : Type ℓ) : Type ℓ where
  pub same : K → K → Bool
  pub same_iff : (a b : K) → (same a b ≡ true) ↔ (a ≡ b)

pub eq_ℤ_iff : (a b : ℤ) → (eq_ℤ a b ≡ true) ↔ (a ≡ b)
unfolding eq_ℤ
eq_ℤ_iff (pos a) (pos b) = ground arith
eq_ℤ_iff (negsuc a) (negsuc b) = ground arith
eq_ℤ_iff (pos a) (negsuc b) = ground arith
eq_ℤ_iff (negsuc a) (pos b) = ground arith

instance abbrev pub int_key : Key ℤ
int_key = record { same = eq_ℤ; same_iff = eq_ℤ_iff }

instance abbrev pub nat_key : Key ℕ
nat_key = record { same = Tests.◌==◌; same_iff = ==_iff }

abbrev pub Dict {ℓ κ} : Type ℓ → Type κ → Type (ℓ ⊔ κ)
Dict K V = List (K × V)

module _ {ℓ κ} {K : Type ℓ} {V : Type κ} ⦃k : Key K⦄ where
  -- d.get(key)
  unfoldable pub lookup : K → Dict K V → Option V
  lookup key [] = none
  lookup key ((j, v) ∷ d) = if k.same j key then some v else lookup key d

  -- d[key] = v
  unfoldable pub insert : K → V → Dict K V → Dict K V
  insert key v [] = (key, v) ∷ []
  insert key v ((j, w) ∷ d) = if k.same j key then (j, v) ∷ d else (j, w) ∷ insert key v d

  -- d.update(e)
  unfoldable pub update : Dict K V → Dict K V → Dict K V
  unfolding insert
  update d [] = d
  update d ((j, v) ∷ e) = update (insert j v d) e

  abbrev pub keys : Dict K V → List K
  keys [] = []
  keys ((j, v) ∷ d) = j ∷ keys d

  pub lookup-insert :
      (a b : K) (v : V) (d : Dict K V)
      → lookup b (insert a v d) ≡ (if k.same a b then some v else lookup b d)
  unfolding lookup insert
  lookup-insert a b v [] = refl
  lookup-insert a b v ((j, w) ∷ d) =
      ground (arith, k.same_iff j a, k.same_iff j b, k.same_iff a b, lookup-insert a b v d)

module _ {ℓ κ} {K : Type ℓ} {V : Type κ} ⦃k : Key K⦄ where
  -- key in d
  unfoldable pub has : K → Dict K V → Bool
  has key [] = false
  has key ((j, v) ∷ d) = if k.same j key then true else has key d

  -- No key occurs twice, as in every dictionary that Python can build.
  abbrev pub Distinct : Dict K V → Type 0
  Distinct [] = Unit {0}
  Distinct ((j, v) ∷ d) = (has j d ≡ false) × Distinct d

  pub has-insert :
      (a b : K) (v : V) (d : Dict K V)
      → has b (insert a v d) ≡ (if k.same a b then true else has b d)
  unfolding has insert
  has-insert a b v [] = refl
  has-insert a b v ((j, w) ∷ d) =
      ground (arith, k.same_iff j a, k.same_iff j b, k.same_iff a b, has-insert a b v d)

  pub insert-Distinct : (a : K) (v : V) (d : Dict K V) → Distinct d → Distinct (insert a v d)
  unfolding insert has
  insert-Distinct a v [] h = ground arith
  insert-Distinct a v ((j, w) ∷ d) h =
      ground (arith, k.same_iff j a, k.same_iff a j, has-insert a j v d, insert-Distinct a v d h.1)

  -- A property of all entries, by key and value.
  abbrev pub Entries {μ} : (K → V → Type μ) → Dict K V → Type μ
  Entries P [] = Unit {μ}
  Entries P ((j, v) ∷ d) = P j v × Entries P d

module _ {ℓ κ} {K : Type ℓ} {V : Type κ} ⦃k : Key K⦄ where
  -- del d[key], of the one entry that a dictionary has for a key
  unfoldable pub delete : K → Dict K V → Dict K V
  delete key [] = []
  delete key ((j, v) ∷ d) = if k.same j key then delete key d else (j, v) ∷ delete key d

  pub lookup-delete :
      (a b : K) (d : Dict K V) → lookup b (delete a d) ≡ (if k.same a b then none else lookup b d)
  unfolding lookup delete
  lookup-delete a b [] = ground arith
  lookup-delete a b ((j, w) ∷ d) =
      ground (arith, k.same_iff j a, k.same_iff j b, k.same_iff a b, lookup-delete a b d)

  pub has-delete :
      (a b : K) (d : Dict K V) → has b (delete a d) ≡ (if k.same a b then false else has b d)
  unfolding has delete
  has-delete a b [] = ground arith
  has-delete a b ((j, w) ∷ d) =
      ground (arith, k.same_iff j a, k.same_iff j b, k.same_iff a b, has-delete a b d)

  pub delete-Distinct : (a : K) (d : Dict K V) → Distinct d → Distinct (delete a d)
  unfolding delete has
  delete-Distinct a [] h = tt
  delete-Distinct a ((j, w) ∷ d) h = ground (arith, has-delete a j d, delete-Distinct a d h.1)

  pub Entries-both {μ ν ξ} :
      {P : K → V → Type μ} {Q : K → V → Type ν} {R : K → V → Type ξ}
      → ((j : K) (v : V) → P j v → Q j v → R j v)
      → (d : Dict K V) → Entries P d
      → Entries Q d
      → Entries R d
  Entries-both f [] p q = tt
  Entries-both f ((j, v) ∷ d) p q = (f j v p.0 q.0, Entries-both f d p.1 q.1)

  pub has_others : (a : K) (d : Dict K V) → has a d ≡ false → Entries (λ j v. k.same a j ≡ false) d
  unfolding has
  has_others a [] h = tt
  has_others a ((j, v) ∷ d) h =
      (ground (arith, k.same_iff j a, k.same_iff a j), has_others a d (ground arith))

  -- Each entry is what is found under its key.
  pub lookup_entries : (d : Dict K V) → Distinct d → Entries (λ j v. lookup j d ≡ some v) d
  unfolding lookup
  lookup_entries [] h = tt
  lookup_entries ((j, v) ∷ d) h = (
    ground (arith, k.same_iff j j),
    Entries-both (λ i w other there. rw other there) d (has_others j d h.0) (lookup_entries d h.1),
  )

  pub has-lookup : (a : K) (v : V) (d : Dict K V) → lookup a d ≡ some v → has a d ≡ true
  unfolding has lookup
  has-lookup a v [] h = cc
  has-lookup a v ((j, w) ∷ d) h = ground (arith, has-lookup a v d)

  pub has-append : (a : K) (d e : Dict K V) → has a (d ++ e) ≡ (if has a d then true else has a e)
  unfolding has
  has-append a [] e = refl
  has-append a ((j, v) ∷ d) e = ground (arith, has-append a d e)

  Distinct-middle :
      (j : K) (v : V) (d e : Dict K V)
      → Distinct (d ++ (j, v) ∷ e)
      → (has j d ≡ false) × Distinct (d ++ e)
  unfolding has
  Distinct-middle j v [] e h = (refl, h.1)
  Distinct-middle j v ((a, w) ∷ d) e h =
      let (new, rest) = Distinct-middle j v d e h.1 in
      (
        ground (arith, has-append a d ((j, v) ∷ e), k.same_iff a j, k.same_iff j a),
        (ground (arith, h.0, has-append a d ((j, v) ∷ e), has-append a d e), rest),
      )

  -- No key of the second part of a dictionary stands in its first part.
  pub append_apart : (d e : Dict K V) → Distinct (d ++ e) → Entries (λ j v. has j d ≡ false) e
  append_apart d [] h = tt
  append_apart d ((j, v) ∷ e) h =
      let (new, rest) = Distinct-middle j v d e h in (new, append_apart d e rest)

  pub Entries-lookup {μ} :
      (P : K → V → Type μ) (a : K) (v : V) (d : Dict K V)
      → Entries P d
      → lookup a d ≡ some v
      → P a v
  unfolding lookup
  Entries-lookup P a v [] p e = cc
  Entries-lookup P a v ((j, w) ∷ d) p e = elim (Bool-cases (k.same j a)) [
    | inl same ↦ rw (← (k.same_iff j a).0 same, ← some_inj (rw same at e)) p.0
    | inr other ↦ Entries-lookup P a v d p.1 (rw other at e)
  ]
    where
      some_inj : {x y : V} → some x ≡ some y → x ≡ y
      some_inj h = cc

  pub append-Distinct : (d e : Dict K V) → Distinct (d ++ e) → Distinct d
  append-Distinct [] e h = tt
  append-Distinct ((j, v) ∷ d) e h =
      (ground (arith, h.0, has-append j d e), append-Distinct d e h.1)

  pub Entries-append_right {μ} :
      (P : K → V → Type μ) (d e : Dict K V) → Entries P (d ++ e) → Entries P e
  Entries-append_right P [] e h = h
  Entries-append_right P ((j, v) ∷ d) e h = Entries-append_right P d e h.1
