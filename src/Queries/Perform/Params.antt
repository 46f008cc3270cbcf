-- ===== src/Queries/Perform/Params.antt =====
-- The fields of a request, as a server reads them.
use python_thin_client.Prelude.{
  ℕ, ◌*◌, ◌^◌, ◌≤◌, ◌<◌, ◌≡◌, refl, none, List, [], ◌∷◌, ◌++◌, length, All, arith, append_assoc,
  le→leb,
}
use python_thin_client.Prelude.Outcome.{ok, ◌>>=◌}
use python_thin_client.Datatypes.Wire.{
  Stream, Result, to_bytes, field, raw, raw-append, field-to_bytes,
}
use python_thin_client.Datatypes.Scalars.Parse.{read_bool}
use python_thin_client.Datatypes.Scalars.Arrays.{read_int_lem, read_bool_lem, read_real_lem}
use python_thin_client.Datatypes.Scalars.{float, Fits, get_int, write_all, write_array}
use python_thin_client.Datatypes.Values.{
  Binaries, count, count_entries, read_items, read_entries, read_object, read_value,
}
use python_thin_client.Datatypes.Values.Depth.{depth, depth_items, depth_entries}
use python_thin_client.Datatypes.Values.Elements.{ValueHolds, ItemsHold, EntriesHold, Takes-none}
use python_thin_client.Datatypes.Values.Trips.{pack_nat_lem}
use python_thin_client.Datatypes.Values.RoundTrip.{write_value-read_value, items_trip, entries_trip}
use python_thin_client.Queries.Perform.{
  Param, object, objects, pairs, octets, integer, flag, float_bits, pack_byte, write_param,
  write_params,
}

-- What the protocol has in the places of the fields.
pub data ParamClass : Type 0 where
  an_object an_array a_map some_bytes a_bool a_float : ParamClass
  an_int : ℕ → ParamClass

abbrev pub param_class : Param → ParamClass
param_class (object v) = an_object
param_class (objects xs) = an_array
param_class (pairs es) = a_map
param_class (octets bs) = some_bytes
param_class (integer n v) = an_int n
param_class (flag b) = a_bool
param_class (float_bits v) = a_float

abbrev pub param_classes : List Param → List ParamClass
param_classes [] = []
param_classes (p ∷ ps) = param_class p ∷ param_classes ps

abbrev pub param_depth : Param → ℕ
param_depth (object v) = depth v
param_depth (objects xs) = depth_items xs
param_depth (pairs es) = depth_entries es
param_depth p = 0

module _ (g : Binaries) (fuel : ℕ) where
  abbrev pub read_param : ParamClass → Stream → Result (Param × Stream)
  read_param an_object s = do (v, s1) ← read_value g fuel s; ok (object v, s1)
  read_param an_array s = do
    (n, s1) ← field 4 s
    (xs, s2) ← read_items g (read_object g fuel) n s1
    ok (objects xs, s2)
  read_param a_map s = do
    (n, s1) ← field 4 s
    (es, s2) ← read_entries g (read_object g fuel) n s1
    ok (pairs es, s2)
  read_param some_bytes s = do (n, s1) ← field 4 s; (bs, s2) ← raw n s1; ok (octets bs, s2)
  read_param a_bool s = do (b, s1) ← read_bool s; ok (flag b, s1)
  read_param a_float s = do (v, s1) ← field 4 s; ok (float_bits v, s1)
  read_param (an_int n) s = do (v, s1) ← get_int n s; ok (integer n v, s1)

  abbrev pub read_params : List ParamClass → Stream → Result (List Param × Stream)
  read_params [] s = ok ([], s)
  read_params (c ∷ cs) s = do
    (p, s1) ← read_param c s
    (ps, s2) ← read_params cs s1
    ok (p ∷ ps, s2)

-- Values that the format holds, no more of them than a counter counts, bytes, and numbers that fit
-- their fields.
abbrev pub ParamHolds : Binaries → Param → Type 0
ParamHolds g (object v) = ValueHolds g v
ParamHolds g (objects xs) = (count xs < 2 ^ 31) × ItemsHold g xs
ParamHolds g (pairs es) = (count_entries es < 2 ^ 31) × EntriesHold g es
ParamHolds g (octets bs) = (length bs < 2 ^ 31) × All (λ b. b < 256) bs
ParamHolds g (integer n v) = (0 < n) × Fits (8 * n) v
ParamHolds g (flag b) = Unit {0}
ParamHolds g (float_bits v) = v < 2 ^ 32

write_all-pack_byte : (bs : List ℕ) → All (λ b. b < 256) bs → write_all pack_byte bs ≡ ok bs
unfolding write_all pack_byte
write_all-pack_byte [] h = refl
write_all-pack_byte (b ∷ bs) h =
    rw (le→leb b 255 (omega (arith, h.0)), write_all-pack_byte bs h.1) refl

module _ (g : Binaries) where
  abbrev pub ParamTrip : Param → Type 0
  ParamTrip p =
      (body : List ℕ) × (write_param g p ≡ ok body)
      × ((rest : Stream) (fuel : ℕ)
          → param_depth p ≤ fuel
          → read_param g fuel (param_class p) (body ++ rest) ≡ ok (p, rest))

  pub param_trip : (p : Param) → ParamHolds g p → ParamTrip p
  unfolding write_param read_value write_array
  param_trip (object v) h =
      let (body, wrote, back) = write_value-read_value g v h in
      (body, wrote, λ rest fuel deep. rw (back rest fuel none (Takes-none v) deep) refl)
  param_trip (objects xs) h =
      let (body, wrote, back) = items_trip g xs h.1 in
      let n = count xs in
      (
        to_bytes 4 n ++ body,
        rw (pack_nat_lem n h.0, wrote) refl,
        λ rest fuel deep.
            rw
              (
                append_assoc,
                field-to_bytes 4 n (body ++ rest) (omega (arith, h.0)),
                back rest fuel deep,
              )
              refl,
      )
  param_trip (pairs es) h =
      let (body, wrote, back) = entries_trip g es h.1 in
      let n = count_entries es in
      (
        to_bytes 4 n ++ body,
        rw (pack_nat_lem n h.0, wrote) refl,
        λ rest fuel deep.
            rw
              (
                append_assoc,
                field-to_bytes 4 n (body ++ rest) (omega (arith, h.0)),
                back rest fuel deep,
              )
              refl,
      )
  param_trip (octets bs) h =
      let n = length bs in
      (
        to_bytes 4 n ++ bs,
        rw (pack_nat_lem n h.0, write_all-pack_byte bs h.1) refl,
        λ rest fuel deep.
            rw
              (
                append_assoc,
                field-to_bytes 4 n (bs ++ rest) (omega (arith, h.0)),
                raw-append bs rest,
              )
              refl,
      )
  param_trip (integer n v) h =
      let (body, wrote, back) = read_int_lem n v h.0 h.1 in
      (body, wrote, λ rest fuel deep. rw (back rest) refl)
  param_trip (flag b) h =
      let (body, wrote, back) = read_bool_lem b in
      (body, wrote, λ rest fuel deep. rw (back rest) refl)
  param_trip (float_bits v) h =
      let (body, wrote, back) = read_real_lem float v (omega arith) in
      (body, wrote, λ rest fuel deep. rw (back rest) refl)

  -- The fields read back one after the other.
  pub params_trip :
      (ps : List Param)
      → All (ParamHolds g) ps
      → (body : List ℕ) × (write_params g ps ≡ ok body)
        × ((rest : Stream) (fuel : ℕ)
            → All (λ p. param_depth p ≤ fuel) ps
            → read_params g fuel (param_classes ps) (body ++ rest) ≡ ok (ps, rest))
  unfolding write_params
  params_trip [] h = ([], refl, λ rest fuel deep. refl)
  params_trip (p ∷ ps) h =
      let (b, wrote, back) = param_trip p h.0 in
      let (bs, wrote_all, back_all) = params_trip ps h.1 in
      (
        b ++ bs,
        rw (wrote, wrote_all) refl,
        λ rest fuel deep.
            rw (append_assoc, back (bs ++ rest) fuel deep.0, back_all rest fuel deep.1) refl,
      )
