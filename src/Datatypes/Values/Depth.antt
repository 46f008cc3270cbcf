-- ===== src/Datatypes/Values/Depth.antt =====
-- How deep values are nested.
use python_thin_client.Prelude.{ℕ, suc}
use Prim.Native.Nat.{max}
use python_thin_client.Datatypes.Values.{
  Value, null, scalar, standard_array, enum_array, object_array, collection, mapping, binary,
  wrapped, Items, nil, cons, Entries, end, entry,
}

unfoldable mutual
  pub depth : Value → ℕ
  depth null = 1
  depth (scalar x) = 1
  depth (standard_array k xs) = 1
  depth (enum_array type_id xs) = 1
  depth (object_array type_id xs) = suc (depth_items xs)
  depth (collection type_id xs) = suc (depth_items xs)
  depth (mapping type_id es) = suc (depth_entries es)
  depth (binary c version xs) = suc (depth_items xs)
  depth (wrapped payload offset) = 1

  pub depth_items : Items → ℕ
  depth_items nil = 0
  depth_items (cons x xs) = max (depth x) (depth_items xs)

  pub depth_entries : Entries → ℕ
  depth_entries end = 0
  depth_entries (entry k v es) = max (max (depth k) (depth v)) (depth_entries es)
