-- ===== src/Queries/Responses/Topology.antt =====
-- The affinity version that the client has heard of.
use python_thin_client.Prelude.{
  ◌≡◌, ◌⊎◌, inl, inr, refl, ◌∙◌, sym, false, Option, none, some, List, [], ◌∷◌, All, arith,
  Bool-cases,
}
use python_thin_client.Prelude.Int.{ℤ}
use python_thin_client.Queries.Responses.{newer, post_process}

abbrev pub Version : Type 0
Version = ℤ × ℤ

-- The affinity version after a sequence of responses.
unfoldable pub heard : List (Option Version) → Version → Version
heard [] v = v
heard (o ∷ os) v = heard os (post_process o v)

abbrev pub NotNewer : Version → Option Version → Type 0
NotNewer v none = Unit {0}
NotNewer v (some w) = newer w v ≡ false

newer_trans : (u v w : Version) → newer w v ≡ false → newer v u ≡ false → newer w u ≡ false
unfolding newer
newer_trans u v w a b = ground arith

post_process_grows : (o : Option Version) (v : Version) → newer v (post_process o v) ≡ false
unfolding post_process newer
post_process_grows none v = ground arith
post_process_grows (some w) v = elim (Bool-cases (newer w v)) [
  | inl more ↦ rw more (ground arith)
  | inr less ↦ rw less (ground arith)
]

heard_grows : (os : List (Option Version)) (v : Version) → newer v (heard os v) ≡ false
unfolding heard
heard_grows [] v = unfold newer in ground arith
heard_grows (o ∷ os) v =
    newer_trans (heard os (post_process o v)) (post_process o v) v (post_process_grows o v)
      (heard_grows os (post_process o v))

abbrev pub Among : Version → List (Option Version) → Type 0
Among v [] = ⊥
Among v (none ∷ os) = Among v os
Among v (some w ∷ os) = (w ≡ v) ⊎ Among v os

own : (w v : Version) → newer w (post_process (some w) v) ≡ false
unfolding post_process newer
own w v = elim (Bool-cases (newer w v)) [
  | inl more ↦ rw more (ground arith)
  | inr less ↦ rw less less
]

either : (w v : Version) → (post_process (some w) v ≡ v) ⊎ (w ≡ post_process (some w) v)
unfolding post_process
either w v = elim (Bool-cases (newer w v)) [
  | inl more ↦ rw more (inr refl)
  | inr less ↦ rw less (inl refl)
]

heard-NotNewer :
    (o : Option Version) (os : List (Option Version)) (v : Version)
    → NotNewer (heard os (post_process o v)) o
unfolding post_process
heard-NotNewer none os v = tt
heard-NotNewer (some w) os v =
    newer_trans (heard os (post_process (some w) v)) (post_process (some w) v) w (own w v)
      (heard_grows os (post_process (some w) v))

none_newer : (os : List (Option Version)) (v : Version) → All (NotNewer (heard os v)) os
unfolding heard
none_newer [] v = tt
none_newer (o ∷ os) v = (heard-NotNewer o os v, none_newer os (post_process o v))

heard-Among : (os : List (Option Version)) (v : Version) → (heard os v ≡ v) ⊎ Among (heard os v) os
unfolding heard post_process
heard-Among [] v = inl refl
heard-Among (none ∷ os) v = heard-Among os v
heard-Among (some w ∷ os) v = elim (heard-Among os (post_process (some w) v)) [
  | inl kept ↦ elim (either w v) [
    | inl old ↦ inl (kept ∙ old)
    | inr new ↦ inr (inl (new ∙ sym kept))
  ]
  | inr among ↦ inr (inr among)
]

-- Whatever the order in which responses report topology changes, the client then has one of the
-- reported affinity versions or the one that it had, and none of these is newer than it.
pub heard_lem :
    (os : List (Option Version)) (v : Version)
    → ((heard os v ≡ v) ⊎ Among (heard os v) os)
      × (newer v (heard os v) ≡ false)
      × All (NotNewer (heard os v)) os
heard_lem os v = (heard-Among os v, heard_grows os v, none_newer os v)
