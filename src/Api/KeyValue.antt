-- ===== src/Api/KeyValue.antt =====
-- pygridgain/api/key_value.py: the query that each function performs. A key, sample or value has with it
-- the class that a hint gives, or that of its own.
pub mod Protocol
pub mod Requests
pub mod Replies
mod Runs
use python_thin_client.Prelude.{ℕ, Option, none, some, List, [], ◌∷◌}
use python_thin_client.Datatypes.Values.{Value, Items, Entries}
use python_thin_client.Queries.Perform.{
  Param, object, objects, pairs, octets, FieldClass, any_data, map_class, bool_class, long_class,
  Query,
}

-- queries/op_codes.py
abbrev pub op_cache_put : ℕ
op_cache_put = 1001

abbrev pub op_cache_get : ℕ
op_cache_get = 1000

abbrev pub op_cache_get_all : ℕ
op_cache_get_all = 1003

abbrev pub op_cache_put_all : ℕ
op_cache_put_all = 1004

abbrev pub op_cache_contains_key : ℕ
op_cache_contains_key = 1011

abbrev pub op_cache_contains_keys : ℕ
op_cache_contains_keys = 1012

abbrev pub op_cache_get_and_put : ℕ
op_cache_get_and_put = 1005

abbrev pub op_cache_get_and_replace : ℕ
op_cache_get_and_replace = 1006

abbrev pub op_cache_get_and_remove : ℕ
op_cache_get_and_remove = 1007

abbrev pub op_cache_put_if_absent : ℕ
op_cache_put_if_absent = 1002

abbrev pub op_cache_get_and_put_if_absent : ℕ
op_cache_get_and_put_if_absent = 1008

abbrev pub op_cache_replace : ℕ
op_cache_replace = 1009

abbrev pub op_cache_replace_if_equals : ℕ
op_cache_replace_if_equals = 1010

abbrev pub op_cache_clear : ℕ
op_cache_clear = 1013

abbrev pub op_cache_clear_key : ℕ
op_cache_clear_key = 1014

abbrev pub op_cache_clear_keys : ℕ
op_cache_clear_keys = 1015

abbrev pub op_cache_remove_key : ℕ
op_cache_remove_key = 1016

abbrev pub op_cache_remove_if_equals : ℕ
op_cache_remove_if_equals = 1017

abbrev pub op_cache_remove_keys : ℕ
op_cache_remove_keys = 1018

abbrev pub op_cache_remove_all : ℕ
op_cache_remove_all = 1019

abbrev pub op_cache_get_size : ℕ
op_cache_get_size = 1020

abbrev pub op_cache_local_peek : ℕ
op_cache_local_peek = 1021

-- The peek modes that a caller gives: None, one, or a list of them.
pub data PeekModes : Type 0 where
  unset : PeekModes
  one_mode : ℕ → PeekModes
  modes_of : List ℕ → PeekModes

unfoldable pub peek_list : PeekModes → List ℕ
peek_list unset = []
peek_list (one_mode m) = m ∷ []
peek_list (modes_of ms) = ms

unfoldable pub cache_put : Value → Value → Query
cache_put key value = record {
  op_code = op_cache_put;
  following = object key ∷ object value ∷ [];
  response_config = none;
}

unfoldable pub cache_get : Value → Query
cache_get key = record {
  op_code = op_cache_get;
  following = object key ∷ [];
  response_config = some any_data;
}

unfoldable pub cache_get_all : Items → Query
cache_get_all keys = record {
  op_code = op_cache_get_all;
  following = objects keys ∷ [];
  response_config = some map_class;
}

unfoldable pub cache_put_all : Entries → Query
cache_put_all entries = record {
  op_code = op_cache_put_all;
  following = pairs entries ∷ [];
  response_config = none;
}

unfoldable pub cache_contains_key : Value → Query
cache_contains_key key = record {
  op_code = op_cache_contains_key;
  following = object key ∷ [];
  response_config = some bool_class;
}

unfoldable pub cache_contains_keys : Items → Query
cache_contains_keys keys = record {
  op_code = op_cache_contains_keys;
  following = objects keys ∷ [];
  response_config = some bool_class;
}

unfoldable pub cache_get_and_put : Value → Value → Query
cache_get_and_put key value = record {
  op_code = op_cache_get_and_put;
  following = object key ∷ object value ∷ [];
  response_config = some any_data;
}

unfoldable pub cache_get_and_replace : Value → Value → Query
cache_get_and_replace key value = record {
  op_code = op_cache_get_and_replace;
  following = object key ∷ object value ∷ [];
  response_config = some any_data;
}

unfoldable pub cache_get_and_remove : Value → Query
cache_get_and_remove key = record {
  op_code = op_cache_get_and_remove;
  following = object key ∷ [];
  response_config = some any_data;
}

unfoldable pub cache_put_if_absent : Value → Value → Query
cache_put_if_absent key value = record {
  op_code = op_cache_put_if_absent;
  following = object key ∷ object value ∷ [];
  response_config = some bool_class;
}

unfoldable pub cache_get_and_put_if_absent : Value → Value → Query
cache_get_and_put_if_absent key value = record {
  op_code = op_cache_get_and_put_if_absent;
  following = object key ∷ object value ∷ [];
  response_config = some any_data;
}

unfoldable pub cache_replace : Value → Value → Query
cache_replace key value = record {
  op_code = op_cache_replace;
  following = object key ∷ object value ∷ [];
  response_config = some bool_class;
}

unfoldable pub cache_replace_if_equals : Value → Value → Value → Query
cache_replace_if_equals key sample value = record {
  op_code = op_cache_replace_if_equals;
  following = object key ∷ object sample ∷ object value ∷ [];
  response_config = some bool_class;
}

unfoldable pub cache_clear : Query
cache_clear = record { op_code = op_cache_clear; following = []; response_config = none }

unfoldable pub cache_clear_key : Value → Query
cache_clear_key key = record {
  op_code = op_cache_clear_key;
  following = object key ∷ [];
  response_config = none;
}

unfoldable pub cache_clear_keys : Items → Query
cache_clear_keys keys = record {
  op_code = op_cache_clear_keys;
  following = objects keys ∷ [];
  response_config = none;
}

unfoldable pub cache_remove_key : Value → Query
cache_remove_key key = record {
  op_code = op_cache_remove_key;
  following = object key ∷ [];
  response_config = some bool_class;
}

unfoldable pub cache_remove_if_equals : Value → Value → Query
cache_remove_if_equals key sample = record {
  op_code = op_cache_remove_if_equals;
  following = object key ∷ object sample ∷ [];
  response_config = some bool_class;
}

unfoldable pub cache_remove_keys : Items → Query
cache_remove_keys keys = record {
  op_code = op_cache_remove_keys;
  following = objects keys ∷ [];
  response_config = none;
}

unfoldable pub cache_remove_all : Query
cache_remove_all = record { op_code = op_cache_remove_all; following = []; response_config = none }

unfoldable pub cache_get_size : PeekModes → Query
unfolding peek_list
cache_get_size modes = record {
  op_code = op_cache_get_size;
  following = octets (peek_list modes) ∷ [];
  response_config = some long_class;
}

unfoldable pub cache_local_peek : Value → PeekModes → Query
unfolding peek_list
cache_local_peek key modes = record {
  op_code = op_cache_local_peek;
  following = object key ∷ octets (peek_list modes) ∷ [];
  response_config = some any_data;
}
