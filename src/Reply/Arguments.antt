-- ===== src/Reply/Arguments.antt =====
-- The arguments of a task, which `into_full_task` of src/queries/fetch_next.rs reads with a codec.
use apalis_redis.Prelude.{◌≡◌, List, [], ◌∷◌, Text, arith}
use apalis_redis.Script.{Result, ok, err}
use apalis_redis.Reply.{
  Value, bulk_string, array, server_error, other, elements, CompactTask, Core, arguments, entries,
  bulk, from_meta, from_fields, decode, built, into_full_task,
}

module _ (core : Core) where
  from_meta-args :
      (data_bytes id : Text) (meta : List (Text × Text)) {t : CompactTask}
      → from_meta core data_bytes id meta ≡ ok t
      → t.args ≡ data_bytes
  unfolding from_meta
  from_meta-args data_bytes id meta h = ground arith

  from_fields-args :
      (data_bytes : Text) (fields : List Value) {t : CompactTask}
      → from_fields core data_bytes fields ≡ ok t
      → t.args ≡ data_bytes
  unfolding from_fields from_meta
  from_fields-args data_bytes [] h = cc
  from_fields-args data_bytes (id ∷ rest) h = grind arith

  -- A task has the data that the server sent for it, whatever its fields.
  decode-args :
      (data_bytes : Text) (m : Value) {t : CompactTask}
      → decode core (bulk_string data_bytes) m ≡ ok t
      → t.args ≡ data_bytes
  unfolding decode bulk entries
  decode-args data_bytes (array vs) h = from_fields-args data_bytes (elements vs) h
  decode-args data_bytes (bulk_string s) h = cc
  decode-args data_bytes server_error h = cc
  decode-args data_bytes other h = cc

  -- The full task made of a reply has the arguments that the codec reads in the data that the server
  -- sent, and all else as the compact one; it is refused with the codec's error where it reads none.
  into_full_task-decode :
      {A : Type 0} (codec : Text → Result Text A) (data_bytes : Text) (m : Value) (t : CompactTask)
      → decode core (bulk_string data_bytes) m ≡ ok t
      → into_full_task codec t
        ≡ elim (codec data_bytes) [ ok args ↦ ok (built args t) | err e ↦ err (arguments e) ]
  unfolding into_full_task
  into_full_task-decode codec data_bytes m t h = rw (decode-args data_bytes m h)
