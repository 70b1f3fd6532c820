-- ===== src/Psa.antt =====
-- The secure side's surroundings: the PSA status codes and messages that the partitions handle
-- (partitions/echo_service, partitions/tinymaix_inference), the calls that they make into code
-- which is not part of the sources (the Secure Partition Manager, PSA Crypto, the TinyMaix engine),
-- and the history of those calls.
use pico2w_tfm.Common.{ℕ, Bool, true, false, List, Bytes}

-- `psa_status_t`: the codes that the sources name; `other` is any further code of a callee.
pub data Status : Type 0 where
  success generic_error not_supported invalid_argument bad_state : Status
  buffer_too_small already_exists insufficient_memory communication_failure : Status
  connection_refused : Status
  other : ℕ → Status

abbrev pub is_success : Status → Bool
is_success success = true
is_success _ = false

-- `msg.type`: the framework's two own messages, or a client's request type (`PSA_IPC_CALL` is 0).
pub data MsgType : Type 0 where
  ipc_connect ipc_disconnect : MsgType
  ipc_call : ℕ → MsgType

-- `psa_msg_t`, with the sizes of the vectors of index 0.
pub record Msg : Type 0 where
  pub type : MsgType
  pub handle : ℕ
  pub in_size : ℕ
  pub out_size : ℕ

-- The inputs of a key derivation.
pub data DerivationStep : Type 0 where
  salt info : DerivationStep

-- PSA Crypto calls whose status the sources read.
pub data CryptoCall : Type 0 where
  crypto_init : CryptoCall
  key_derivation_setup : CryptoCall
  key_derivation_input_bytes : DerivationStep → Bytes → CryptoCall
  key_derivation_input_key : CryptoCall
  key_derivation_output_bytes : ℕ → CryptoCall
  import_key : Bytes → CryptoCall
  cipher_decrypt_setup : ℕ → CryptoCall
  cipher_set_iv : Bytes → CryptoCall
  cipher_update : Bytes → ℕ → CryptoCall
  cipher_finish : ℕ → CryptoCall

-- `tm_err_t`
pub data TmErr : Type 0 where
  tm_ok tm_err tm_err_magic tm_err_unsupport tm_err_oom tm_err_layertype tm_err_dims : TmErr
  tm_err_todo tm_err_mdltype tm_err_ksize : TmErr

abbrev pub is_tm_ok : TmErr → Bool
is_tm_ok tm_ok = true
is_tm_ok _ = false

-- The shape of a `tm_mat_t`.
pub record Mat : Type 0 where
  pub dims : ℕ
  pub h : ℕ
  pub w : ℕ
  pub c : ℕ

-- Calls of the TinyMaix engine, with the buffers that it reads: the model binary that `tm_load`
-- keeps a pointer to is read again by `tm_preprocess` and `tm_run`.
pub data TmCall : Type 0 where
  tm_load : Bytes → TmCall
  tm_preprocess : Bytes → Mat → Bytes → TmCall
  tm_run : Bytes → TmCall

-- One call that left the partition, with the result that came back.
pub data Event : Type 0 where
  psa_wait : Event
  psa_get : Status → Event
  psa_read : ℕ → ℕ → ℕ → Bytes → Event
  psa_write : ℕ → ℕ → Bytes → Event
  psa_reply : ℕ → Status → Event
  crypto : CryptoCall → Status → Event
  imported : ℕ → Event
  key_derivation_abort : Event
  cipher_abort : Event
  destroy_key : ℕ → Event
  engine : TmCall → TmErr → Event

-- The calls so far, the latest first.
abbrev pub Trace : Type 0
Trace = List Event

-- What the callees answer. Each answer may depend on everything that was called before, and nothing
-- is assumed of it: a theorem that needs documented behaviour names it as a hypothesis.
pub record Env : Type 1 where
  pub get_status : Trace → Status
  pub message : Trace → Msg
  -- the bytes that `psa_read` copies for a handle, a vector and a size; their number is its result
  pub read_bytes : ℕ → ℕ → ℕ → Trace → Bytes
  pub crypto_status : CryptoCall → Trace → Status
  -- the bytes that a crypto call leaves in its output buffer
  pub filled : CryptoCall → Trace → Bytes
  pub key_id : Trace → ℕ
  pub engine_status : TmCall → Trace → TmErr
  -- `float`, its order and its zero, and the scores that `tm_run` leaves in `g_outs`
  pub Float : Type 0
  pub gt : Float → Float → Bool
  pub zero_float : Float
  pub scores : Trace → List Float
