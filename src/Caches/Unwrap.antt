-- ===== src/Caches/Unwrap.antt =====
-- What `unwrap_binary` makes of a value with wrapped objects.
use python_thin_client.Prelude.{ℕ, ◌≤◌, ◌≡◌, refl, ap, some, List, ◌++◌}
use python_thin_client.Prelude.Int.{pos}
use python_thin_client.Prelude.Outcome.{ok}
use python_thin_client.Datatypes.Values.{
  Value, null, scalar, standard_array, enum_array, object_array, collection, mapping, binary,
  wrapped, Items, nil, cons, Entries, end, entry, Binaries, binary_objects, write_value, add_entry,
}
use python_thin_client.Datatypes.Values.Depth.{depth}
use python_thin_client.Datatypes.Values.Elements.{Takes, ValueHolds}
use python_thin_client.Datatypes.Values.RoundTrip.{write_value-read_value}
use python_thin_client.Caches.{unwrap_binary, unwrap_items, unwrap_entries}

module _ (g : Binaries) (fuel : ℕ) where
  -- A value is that which another one wraps: in place of a binary object, or of None, the other may have
  -- the bytes of it, with whatever behind them and with the offset 0. The entries of a map are put into a
  -- dictionary again, one after the other.
  unfoldable mutual
    pub Wraps : Value → Value → Type 0
    Wraps null v = null ≡ v
    Wraps (scalar x) v = scalar x ≡ v
    Wraps (standard_array k xs) v = standard_array k xs ≡ v
    Wraps (enum_array t xs) v = enum_array t xs ≡ v
    Wraps (object_array t xs) v = (ys : Items) × WrapsItems xs ys × (object_array t ys ≡ v)
    Wraps (collection t xs) v = (ys : Items) × WrapsItems xs ys × (collection t ys ≡ v)
    Wraps (mapping t es) v = (fs : Entries) × WrapsEntries end es fs × (mapping t fs ≡ v)
    Wraps (binary c version xs) v = binary c version xs ≡ v
    Wraps (wrapped payload offset) v =
        (body rest : List ℕ) × (offset ≡ pos 0)
        × Takes (some binary_objects) v
        × ValueHolds g v
        × (depth v ≤ fuel)
        × (write_value g v ≡ ok body)
        × (body ++ rest ≡ payload)

    pub WrapsItems : Items → Items → Type 0
    WrapsItems nil ys = nil ≡ ys
    WrapsItems (cons x xs) ys =
        (z : Value) × (zs : Items) × Wraps x z × WrapsItems xs zs × (cons z zs ≡ ys)

    pub WrapsEntries : Entries → Entries → Entries → Type 0
    WrapsEntries d end fs = d ≡ fs
    WrapsEntries d (entry k v es) fs =
        (key item : Value) × (e : Entries) × Wraps k key
        × Wraps v item
        × (add_entry g key item d ≡ ok e)
        × WrapsEntries e es fs

  mutual
    unfolding Wraps unwrap_binary

    unwrap_lem : (w v : Value) → Wraps w v → unwrap_binary g fuel w ≡ ok v
    unwrap_lem null v h = ap ok h
    unwrap_lem (scalar x) v h = ap ok h
    unwrap_lem (standard_array k xs) v h = ap ok h
    unwrap_lem (enum_array t xs) v h = ap ok h
    unwrap_lem (object_array t xs) v (ys, h, e) = rw (unwrap_items_lem xs ys h) (ap ok e)
    unwrap_lem (collection t xs) v (ys, h, e) = rw (unwrap_items_lem xs ys h) (ap ok e)
    unwrap_lem (mapping t es) v (fs, h, e) = rw (unwrap_entries_lem end es fs h) (ap ok e)
    unwrap_lem (binary c version xs) v h = ap ok h
    unwrap_lem (wrapped payload offset) v (body, rest, root, takes, holds, deep, wrote, shape) =
        let (bytes, written, back) = write_value-read_value g v holds in
        let same : bytes ++ rest ≡ payload = cc in
        rw (← same, back rest fuel (some binary_objects) takes deep) refl

    unwrap_items_lem : (xs ys : Items) → WrapsItems xs ys → unwrap_items g fuel xs ≡ ok ys
    unwrap_items_lem nil ys h = ap ok h
    unwrap_items_lem (cons x xs) ys (z, zs, one, all, e) =
        rw (unwrap_lem x z one, unwrap_items_lem xs zs all) (ap ok e)

    unwrap_entries_lem :
        (d es fs : Entries) → WrapsEntries d es fs → unwrap_entries g fuel d es ≡ ok fs
    unwrap_entries_lem d end fs h = ap ok h
    unwrap_entries_lem d (entry k v es) fs (key, item, e, one, two, added, all) =
        rw (unwrap_lem k key one, unwrap_lem v item two, added, unwrap_entries_lem e es fs all) refl

  -- A value that wraps another, in collections, maps and arrays to any depth, is unwrapped to that other
  -- one, where each wrapped object has its root at the start of its payload, whatever follows it there,
  -- and the keys of a map can be those of a dictionary after it.
  pub unwrap_binary-Wraps : (w v : Value) → Wraps w v → unwrap_binary g fuel w ≡ ok v
  unwrap_binary-Wraps w v h = unwrap_lem w v h
