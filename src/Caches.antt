-- ===== src/Caches.antt =====
-- `Cache` of pygridgain/cache.py, and `Client.unwrap_binary` of pygridgain/client.py. A node, or the
-- connection of a transaction, is what it answers to the bytes of a request.
pub mod Unwrap
pub mod Calls
mod Runs
use python_thin_client.Prelude.{
  ℕ, Bool, true, false, Option, none, some, List, [], ◌∷◌, if◌then◌else◌,
}
use python_thin_client.Prelude.Int.{ℤ}
use python_thin_client.Prelude.Outcome.{Outcome, ok, raised, ◌>>=◌}
use python_thin_client.Datatypes.Wire.{Result, Stream}
use python_thin_client.Datatypes.Values.{
  Value, null, scalar, standard_array, enum_array, object_array, collection, mapping, binary,
  wrapped, Items, nil, cons, Entries, end, entry, Binaries, binary_objects, read_object, add_entry,
}
use python_thin_client.Utils.{ApiResult, status_to_exception}
use python_thin_client.Connection.Protocol.{ProtocolContext}
use python_thin_client.Queries.CacheInfo.{CacheInfo}
use python_thin_client.Queries.Perform.{
  Query, Returned, nothing, value, map, truth, number, perform,
}
use python_thin_client.Api.KeyValue.{
  PeekModes, cache_put, cache_get, cache_get_all, cache_put_all, cache_contains_key,
  cache_contains_keys, cache_get_and_put, cache_get_and_replace, cache_get_and_remove,
  cache_put_if_absent, cache_get_and_put_if_absent, cache_replace, cache_replace_if_equals,
  cache_clear, cache_clear_key, cache_clear_keys, cache_remove_key, cache_remove_if_equals,
  cache_remove_keys, cache_remove_all, cache_get_size,
}

abbrev pub Exchange : Type 0
Exchange = List ℕ → Result (List ℕ)

-- The message of a `CacheError`; without one of the server it is 'Success'.
abbrev pub Message : Type 0
Message = Option (Option (List ℕ))

pub record TransactionContext : Type 0 where
  pub tx_id : ℤ
  pub conn : Exchange

-- What the methods use of a client: its registry of binary objects, the room on the stack, the protocol,
-- the node for a key or for none, the next identifier of a query, and the affinity version.
pub record Client : Type 0 where
  pub binaries : Binaries
  pub room : ℕ
  pub protocol_context : ProtocolContext
  pub get_best_node : Option Value → Exchange
  pub query_id : ℕ
  pub affinity_version : ℤ × ℤ

-- `unwrap_binary`, which reads the object at the start of a payload, whatever its offset is
module _ (g : Binaries) (fuel : ℕ) where
  unfoldable mutual
    unfolding read_object add_entry

    pub unwrap_binary : Value → Result Value
    unwrap_binary null = ok null
    unwrap_binary (scalar x) = ok (scalar x)
    unwrap_binary (standard_array k xs) = ok (standard_array k xs)
    unwrap_binary (enum_array t xs) = ok (enum_array t xs)
    unwrap_binary (object_array t xs) = do ys ← unwrap_items xs; ok (object_array t ys)
    unwrap_binary (collection t xs) = do ys ← unwrap_items xs; ok (collection t ys)
    unwrap_binary (mapping t es) = do fs ← unwrap_entries end es; ok (mapping t fs)
    unwrap_binary (binary c version xs) = ok (binary c version xs)
    unwrap_binary (wrapped payload offset) = do
      (v, s) ← read_object g fuel (some binary_objects) payload
      ok v

    pub unwrap_items : Items → Result Items
    unwrap_items nil = ok nil
    unwrap_items (cons x xs) = do y ← unwrap_binary x; ys ← unwrap_items xs; ok (cons y ys)

    -- The comprehension puts the entries into a new dictionary, whose keys must be hashable.
    pub unwrap_entries : Entries → Entries → Result Entries
    unwrap_entries d end = ok d
    unwrap_entries d (entry k v es) = do
      key ← unwrap_binary k
      item ← unwrap_binary v
      e ← add_entry g key item d
      unwrap_entries e es

  -- the values of the dictionary of `get_all`
  unfoldable pub unwrap_values : Entries → Result Entries
  unfolding unwrap_binary
  unwrap_values end = ok end
  unwrap_values (entry k v es) = do
    item ← unwrap_binary v
    fs ← unwrap_values es
    ok (entry k item fs)

  unfoldable pub unwrap_returned : Returned → Result Returned
  unfolding unwrap_binary unwrap_values
  unwrap_returned nothing = ok nothing
  unwrap_returned (value v) = do x ← unwrap_binary v; ok (value x)
  unwrap_returned (map es) = do fs ← unwrap_values es; ok (map fs)
  unwrap_returned r = ok r

-- `_get_best_node`: the connection of a transaction goes before the node for a key.
unfoldable pub get_node : Option TransactionContext → Client → Option Value → Exchange
get_node none client key = client.get_best_node key
get_node (some tx) client key = tx.conn

-- `get_tx_id`
unfoldable pub tx_id_of : Option TransactionContext → Option ℤ
tx_id_of none = none
tx_id_of (some tx) = some tx.tx_id

-- the value or the `CacheError` of a result
unfoldable pub ended : ApiResult Message Returned × (ℤ × ℤ) → Outcome Message Returned × (ℤ × ℤ)
unfolding status_to_exception
ended r = (status_to_exception r.0, r.1)

-- What a method does with its result before the status is looked at.
unfoldable pub unwrapped :
    Bool
    → Binaries
    → ℕ
    → ApiResult Message Returned × (ℤ × ℤ)
    → Result (ApiResult Message Returned × (ℤ × ℤ))
unfolding unwrap_returned
unwrapped false g fuel r = ok r
unwrapped true g fuel r = do
  x ← unwrap_returned g fuel r.0.value
  ok (record r.0 { value = x }, r.1)

-- A method: the query goes to the node for its key, and the value or the `CacheError` comes back with
-- the affinity version of the client then.
unfoldable pub run :
    Bool
    → Option TransactionContext
    → Client
    → CacheInfo
    → Option Value
    → Query
    → Result (Outcome Message Returned × (ℤ × ℤ))
unfolding get_node tx_id_of perform unwrapped ended
run unwraps tx client info key q = do
  result ←
      perform client.binaries (get_node tx client key) client.room client.protocol_context
        (tx_id_of tx) info client.query_id client.affinity_version q
  r ← unwrapped unwraps client.binaries client.room result
  ok (ended r)

module _ (tx : Option TransactionContext) (client : Client) (info : CacheInfo) where
  abbrev pub Method : Type 0
  Method = Result (Outcome Message Returned × (ℤ × ℤ))

  unfoldable pub get : Value → Method
  unfolding run cache_get
  get key = run true tx client info (some key) (cache_get key)

  unfoldable pub put : Value → Value → Method
  unfolding run cache_put
  put key item = run false tx client info (some key) (cache_put key item)

  unfoldable pub get_all : Items → Method
  unfolding run cache_get_all
  get_all keys = run true tx client info none (cache_get_all keys)

  unfoldable pub put_all : Entries → Method
  unfolding run cache_put_all
  put_all entries = run false tx client info none (cache_put_all entries)

  unfoldable pub replace : Value → Value → Method
  unfolding run cache_replace
  replace key item = run true tx client info (some key) (cache_replace key item)

  -- no keys, or an empty list of them, clear the whole cache
  unfoldable pub clear : Option Items → Method
  unfolding run cache_clear cache_clear_keys
  clear none = run false tx client info none cache_clear
  clear (some nil) = run false tx client info none cache_clear
  clear (some (cons k ks)) = run false tx client info none (cache_clear_keys (cons k ks))

  unfoldable pub clear_key : Value → Method
  unfolding run cache_clear_key
  clear_key key = run false tx client info (some key) (cache_clear_key key)

  unfoldable pub clear_keys : Items → Method
  unfolding run cache_clear_keys
  clear_keys keys = run false tx client info none (cache_clear_keys keys)

  unfoldable pub contains_key : Value → Method
  unfolding run cache_contains_key
  contains_key key = run false tx client info (some key) (cache_contains_key key)

  unfoldable pub contains_keys : Items → Method
  unfolding run cache_contains_keys
  contains_keys keys = run false tx client info none (cache_contains_keys keys)

  unfoldable pub get_and_put : Value → Value → Method
  unfolding run cache_get_and_put
  get_and_put key item = run true tx client info (some key) (cache_get_and_put key item)

  unfoldable pub get_and_put_if_absent : Value → Value → Method
  unfolding run cache_get_and_put_if_absent
  get_and_put_if_absent key item =
      run true tx client info (some key) (cache_get_and_put_if_absent key item)

  unfoldable pub put_if_absent : Value → Value → Method
  unfolding run cache_put_if_absent
  put_if_absent key item = run false tx client info (some key) (cache_put_if_absent key item)

  unfoldable pub get_and_remove : Value → Method
  unfolding run cache_get_and_remove
  get_and_remove key = run true tx client info (some key) (cache_get_and_remove key)

  unfoldable pub get_and_replace : Value → Value → Method
  unfolding run cache_get_and_replace
  get_and_replace key item = run true tx client info (some key) (cache_get_and_replace key item)

  unfoldable pub remove_key : Value → Method
  unfolding run cache_remove_key
  remove_key key = run false tx client info (some key) (cache_remove_key key)

  unfoldable pub remove_keys : Items → Method
  unfolding run cache_remove_keys
  remove_keys keys = run false tx client info none (cache_remove_keys keys)

  unfoldable pub remove_all : Method
  unfolding run cache_remove_all
  remove_all = run false tx client info none cache_remove_all

  unfoldable pub remove_if_equals : Value → Value → Method
  unfolding run cache_remove_if_equals
  remove_if_equals key sample =
      run false tx client info (some key) (cache_remove_if_equals key sample)

  unfoldable pub replace_if_equals : Value → Value → Value → Method
  unfolding run cache_replace_if_equals
  replace_if_equals key sample item =
      run true tx client info (some key) (cache_replace_if_equals key sample item)

  unfoldable pub get_size : PeekModes → Method
  unfolding run cache_get_size
  get_size modes = run false tx client info none (cache_get_size modes)
