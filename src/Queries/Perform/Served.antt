-- ===== src/Queries/Perform/Served.antt =====
-- What a server writes of values. Other than a client it sends binary objects wrapped, as values, as
-- columns of rows, and as keys and values of maps.
use python_thin_client.Prelude.{
  ℕ, ◌^◌, ◌≤◌, ◌<◌, ◌≡◌, refl, List, ◌∷◌, ◌++◌, [], length, arith, none, append_assoc,
}
use python_thin_client.Prelude.Int.{ℤ}
use python_thin_client.Prelude.Outcome.{ok, ◌>>=◌}
use python_thin_client.Prelude.Dict.{lookup}
use python_thin_client.Datatypes.Wire.{Stream, Result, to_bytes, field-to_bytes, raw-append}
use python_thin_client.Datatypes.Scalars.{Fits, put_int, pack_nat}
use python_thin_client.Datatypes.Scalars.Laws.{get_int-put_int}
use python_thin_client.Datatypes.Values.{
  Value, null, scalar, standard_array, enum_array, object_array, collection, mapping, binary,
  wrapped, wrapped_objects, Items, nil, cons, Entries, end, entry, Binaries, count, count_entries,
  write_value, read_items, read_entries, read_object, read_as, tc_map,
}
use python_thin_client.Datatypes.Values.Depth.{depth, depth_items, depth_entries}
use python_thin_client.Datatypes.Values.Elements.{ValueHolds, Takes-none, class_for_lem}
use python_thin_client.Datatypes.Values.Trips.{pack_nat_lem, read_object_at}
use python_thin_client.Datatypes.Values.RoundTrip.{write_value-read_value}

abbrev pub write_wrapped : List ℕ → ℤ → Result (List ℕ)
write_wrapped payload offset = do
  size ← pack_nat 4 (length payload)
  ok (0x1b ∷ (size ++ (payload ++ put_int 4 offset)))

module _ (g : Binaries) where
  unfoldable pub serve_value : Value → Result (List ℕ)
  unfolding write_value
  serve_value (wrapped payload offset) = write_wrapped payload offset
  serve_value v = write_value g v

  unfoldable pub serve_items : Items → Result (List ℕ)
  unfolding serve_value
  serve_items nil = ok []
  serve_items (cons x xs) = do head ← serve_value x; tail ← serve_items xs; ok (head ++ tail)

  unfoldable pub serve_entries : Entries → Result (List ℕ)
  unfolding serve_value
  serve_entries end = ok []
  serve_entries (entry k v es) = do
    key ← serve_value k
    item ← serve_value v
    rest ← serve_entries es
    ok (key ++ (item ++ rest))

  -- The values that the format holds, and wrapped objects whose length it holds.
  unfoldable pub Served : Value → Type 0
  unfolding ValueHolds
  Served (wrapped payload offset) = (length payload < 2 ^ 31) × Fits 32 offset
  Served v = ValueHolds g v

  abbrev pub ServedItems : Items → Type 0
  ServedItems nil = Unit {0}
  ServedItems (cons x xs) = Served x × ServedItems xs

  abbrev pub ServedEntries : Entries → Type 0
  ServedEntries end = Unit {0}
  ServedEntries (entry k v es) = Served k × Served v × ServedEntries es

  abbrev pub ServedTrip : Value → Type 0
  ServedTrip v =
      (body : List ℕ) × (serve_value v ≡ ok body)
      × ((rest : Stream) (fuel : ℕ)
          → depth v ≤ fuel
          → read_object g fuel none (body ++ rest) ≡ ok (v, rest))

  plain_trip : (v : Value) → serve_value v ≡ write_value g v → ValueHolds g v → ServedTrip v
  plain_trip v same h =
      let (body, wrote, back) = write_value-read_value g v h in
      (body, rw same wrote, λ rest fuel deep. back rest fuel none (Takes-none v) deep)

  wrapped_trip :
      (payload : List ℕ) (offset : ℤ)
      → length payload < 2 ^ 31
      → Fits 32 offset
      → ServedTrip (wrapped payload offset)
  unfolding serve_value depth
  wrapped_trip payload offset small fit =
      let n = length payload in
      (
        0x1b ∷ (to_bytes 4 n ++ (payload ++ put_int 4 offset)),
        rw (pack_nat_lem n small) refl,
        λ rest fuel deep.
            read_object_at g 0x1b wrapped_objects 0 fuel none
              ((to_bytes 4 n ++ (payload ++ put_int 4 offset)) ++ rest) _
              (unfold tc_map lookup in class_for_lem none 0x1b wrapped_objects tt refl refl) deep
              (λ f enough.
                unfold read_as in
                rw
                  (
                    append_assoc,
                    field-to_bytes 4 n ((payload ++ put_int 4 offset) ++ rest)
                        (omega (arith, small)),
                    append_assoc,
                    raw-append payload (put_int 4 offset ++ rest),
                    get_int-put_int 4 offset rest (omega arith) fit,
                  )
                  refl),
      )

  pub value_trip : (v : Value) → Served v → ServedTrip v
  unfolding Served serve_value
  value_trip (wrapped payload offset) h = wrapped_trip payload offset h.0 h.1
  value_trip null h = plain_trip null refl h
  value_trip (scalar x) h = plain_trip (scalar x) refl h
  value_trip (standard_array k xs) h = plain_trip (standard_array k xs) refl h
  value_trip (enum_array t xs) h = plain_trip (enum_array t xs) refl h
  value_trip (object_array t xs) h = plain_trip (object_array t xs) refl h
  value_trip (collection t xs) h = plain_trip (collection t xs) refl h
  value_trip (mapping t es) h = plain_trip (mapping t es) refl h
  value_trip (binary c version xs) h = plain_trip (binary c version xs) refl h

  pub items_trip :
      (xs : Items)
      → ServedItems xs
      → (body : List ℕ) × (serve_items xs ≡ ok body)
        × ((rest : Stream) (fuel : ℕ)
            → depth_items xs ≤ fuel
            → read_items g (read_object g fuel) (count xs) (body ++ rest) ≡ ok (xs, rest))
  unfolding serve_items read_items depth_items
  items_trip nil h = ([], refl, λ rest fuel deep. refl)
  items_trip (cons x xs) h =
      let (b, wrote, back) = value_trip x h.0 in
      let (bs, wrote_all, back_all) = items_trip xs h.1 in
      (
        b ++ bs,
        rw (wrote, wrote_all) refl,
        λ rest fuel deep.
            rw
              (
                append_assoc,
                back (bs ++ rest) fuel (omega (arith, deep)),
                back_all rest fuel (omega (arith, deep)),
              )
              refl,
      )

  pub entries_trip :
      (es : Entries)
      → ServedEntries es
      → (body : List ℕ) × (serve_entries es ≡ ok body)
        × ((rest : Stream) (fuel : ℕ)
            → depth_entries es ≤ fuel
            → read_entries g (read_object g fuel) (count_entries es) (body ++ rest) ≡ ok (es, rest))
  unfolding serve_entries read_entries depth_entries
  entries_trip end h = ([], refl, λ rest fuel deep. refl)
  entries_trip (entry k v es) h =
      let (kb, wrote_key, back_key) = value_trip k h.0 in
      let (vb, wrote_value, back_value) = value_trip v h.1 in
      let (bs, wrote_all, back_all) = entries_trip es h.2 in
      (
        kb ++ (vb ++ bs),
        rw (wrote_key, wrote_value, wrote_all) refl,
        λ rest fuel deep.
            rw
              (
                append_assoc,
                back_key ((vb ++ bs) ++ rest) fuel (omega (arith, deep)),
                append_assoc,
                back_value (bs ++ rest) fuel (omega (arith, deep)),
                back_all rest fuel (omega (arith, deep)),
              )
              refl,
      )
