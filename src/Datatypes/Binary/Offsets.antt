-- ===== src/Datatypes/Binary/Offsets.antt =====
-- The offsets of the fields.
use python_thin_client.Prelude.{
  ℕ, suc, ◌+◌, ◌≤◌, ◌≡◌, refl, sym, ap, ◌∙◌, List, [], ◌∷◌, ◌++◌, append-nil, append_assoc, length,
  concat, length-append, arith,
}
use python_thin_client.Datatypes.Binary.{max_of, collect, but_last, offsets_of, header_len}

-- The positions of parts that stand one behind the other.
abbrev pub starts : ℕ → List (List ℕ) → List ℕ
starts o [] = []
starts o (part ∷ parts) = o ∷ starts (o + length part) parts

max_of-append : (os : List ℕ) (m : ℕ) → max_of os ≤ m → max_of (os ++ m ∷ []) ≡ m
unfolding max_of
max_of-append [] m h = omega arith
max_of-append (o ∷ os) m h = omega (arith, max_of-append os m (omega arith))

but_last-append : (os : List ℕ) (m : ℕ) → but_last (os ++ m ∷ []) ≡ os
unfolding but_last
but_last-append [] m = refl
but_last-append (o ∷ []) m = refl
but_last-append (o ∷ p ∷ os) m = ap (◌∷◌ o) (but_last-append (p ∷ os) m)

collect_lem :
    (front : List ℕ) (m : ℕ) (parts : List (List ℕ))
    → max_of front ≤ m
    → but_last (collect (front ++ m ∷ []) parts) ≡ front ++ starts m parts
unfolding collect
collect_lem front m [] h = but_last-append front m ∙ sym (append-nil front)
collect_lem front m (part ∷ parts) h = rw (max_of-append front m h) (
    collect_lem (front ++ m ∷ []) (m + length part) parts (omega (arith, max_of-append front m h))
    ∙ append_assoc front (m ∷ []) (starts (m + length part) parts))

pub offsets_of-starts : (parts : List (List ℕ)) → offsets_of parts ≡ starts header_len parts
unfolding offsets_of max_of
offsets_of-starts parts = collect_lem [] header_len parts (omega arith)

pub length-starts : (o : ℕ) (parts : List (List ℕ)) → length (starts o parts) ≡ length parts
length-starts o [] = refl
length-starts o (part ∷ parts) = ap suc (length-starts (o + length part) parts)

-- No start is behind the end.
pub max_of-starts :
    (o : ℕ) (parts : List (List ℕ)) → max_of (starts o parts) ≤ o + length (concat parts)
unfolding max_of
max_of-starts o [] = omega arith
max_of-starts o (part ∷ parts) =
    omega (arith, max_of-starts (o + length part) parts, length-append part (concat parts))
