-- ===== src/Api/KeyValue/Protocol.antt =====
-- The binary protocol of the operations on the entries of a cache: what a server reads, operation by
-- operation, of the fields behind the description of the cache.
use python_thin_client.Prelude.{ℕ, Option, none, some, List, [], ◌∷◌}
use python_thin_client.Prelude.Int.{ℤ, pos}
use python_thin_client.Prelude.Dict.{int_key}
use python_thin_client.Datatypes.Wire.{Stream, Result}
use python_thin_client.Datatypes.Values.{Value, Items, Entries, Binaries}
use python_thin_client.Queries.CacheInfo.{ExpiryPolicy}
use python_thin_client.Queries.Perform.{Param, object, objects, pairs, octets}
use python_thin_client.Queries.Perform.Commands
use python_thin_client.Queries.Perform.Commands.{Operations}
use python_thin_client.Queries.Perform.Params.{an_object, an_array, a_map, some_bytes}

-- What a server is asked to do with a cache.
pub data Command : Type 0 where
  put get_and_put get_and_replace put_if_absent get_and_put_if_absent replace :
      Value → Value → Command
  get contains_key get_and_remove clear_key remove_key : Value → Command
  get_all contains_keys clear_keys remove_keys : Items → Command
  put_all : Entries → Command
  replace_if_equals : Value → Value → Value → Command
  remove_if_equals : Value → Value → Command
  clear remove_all : Command
  get_size : List ℕ → Command
  local_peek : Value → List ℕ → Command

-- The commands by the fields that they have.
abbrev on_cache : Command → List Param → Option Command
on_cache f [] = some f
on_cache f (p ∷ ps) = none

abbrev on_key : (Value → Command) → List Param → Option Command
on_key f (object k ∷ []) = some (f k)
on_key f ps = none

abbrev on_two : (Value → Value → Command) → List Param → Option Command
on_two f (object k ∷ object v ∷ []) = some (f k v)
on_two f ps = none

abbrev on_three : (Value → Value → Value → Command) → List Param → Option Command
on_three f (object k ∷ object v ∷ object w ∷ []) = some (f k v w)
on_three f ps = none

abbrev on_keys : (Items → Command) → List Param → Option Command
on_keys f (objects ks ∷ []) = some (f ks)
on_keys f ps = none

abbrev on_pairs : (Entries → Command) → List Param → Option Command
on_pairs f (pairs es ∷ []) = some (f es)
on_pairs f ps = none

abbrev on_modes : (List ℕ → Command) → List Param → Option Command
on_modes f (octets ms ∷ []) = some (f ms)
on_modes f ps = none

abbrev on_key_and_modes : (Value → List ℕ → Command) → List Param → Option Command
on_key_and_modes f (object k ∷ octets ms ∷ []) = some (f k ms)
on_key_and_modes f ps = none

-- The operations of the protocol by their codes: the fields in order, and the command.
abbrev pub operations : Operations Command
operations =
    (pos 1000, (an_object ∷ [], on_key get))
    ∷ (pos 1001, (an_object ∷ an_object ∷ [], on_two put))
    ∷ (pos 1002, (an_object ∷ an_object ∷ [], on_two put_if_absent))
    ∷ (pos 1003, (an_array ∷ [], on_keys get_all))
    ∷ (pos 1004, (a_map ∷ [], on_pairs put_all))
    ∷ (pos 1005, (an_object ∷ an_object ∷ [], on_two get_and_put))
    ∷ (pos 1006, (an_object ∷ an_object ∷ [], on_two get_and_replace))
    ∷ (pos 1007, (an_object ∷ [], on_key get_and_remove))
    ∷ (pos 1008, (an_object ∷ an_object ∷ [], on_two get_and_put_if_absent))
    ∷ (pos 1009, (an_object ∷ an_object ∷ [], on_two replace))
    ∷ (pos 1010, (an_object ∷ an_object ∷ an_object ∷ [], on_three replace_if_equals))
    ∷ (pos 1011, (an_object ∷ [], on_key contains_key))
    ∷ (pos 1012, (an_array ∷ [], on_keys contains_keys))
    ∷ (pos 1013, ([], on_cache clear))
    ∷ (pos 1014, (an_object ∷ [], on_key clear_key))
    ∷ (pos 1015, (an_array ∷ [], on_keys clear_keys))
    ∷ (pos 1016, (an_object ∷ [], on_key remove_key))
    ∷ (pos 1017, (an_object ∷ an_object ∷ [], on_two remove_if_equals))
    ∷ (pos 1018, (an_array ∷ [], on_keys remove_keys))
    ∷ (pos 1019, ([], on_cache remove_all))
    ∷ (pos 1020, (some_bytes ∷ [], on_modes get_size))
    ∷ (pos 1021, (an_object ∷ some_bytes ∷ [], on_key_and_modes local_peek))
    ∷ []

-- What a server reads of a request.
abbrev pub read_command :
    Binaries → ℕ → Stream → Result ((ℤ × (ℤ × Option ExpiryPolicy × Option ℤ) × Command) × Stream)
read_command g fuel s = Commands.read_command operations g fuel s
