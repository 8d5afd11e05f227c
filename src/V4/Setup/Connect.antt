-- ===== src/V4/Setup/Connect.antt =====
-- src/v4/blocking.rs: `Client::connect_session`, which negotiates the minor version and makes the session.
use nfs.Prelude.{ℕ, ◌*◌, Bool, true, false, Option, none, some, List, [], ◌∷◌}
use nfs.Prelude.Outcome.{ok, err}
use nfs.Prelude.Exec.{pure, raise, lift, attempt, ◌>>=◌, ◌>>◌}
use nfs.Error.{Error, protocol, nfs_v4}
use nfs.V4.Status
use nfs.V4.Args.{Bytes, ChannelAttrs}
use nfs.V4.Transfer.{ExchangeIdResult}
use nfs.V4.Operation.{Operation}
use nfs.V4.Response.{ensure_ok}
use nfs.V4.Policy.{ensure_reclaim_complete, session_max_operations, validate_session_channel_attrs}
use nfs.V4.Extract.{response_exchange_id, response_create_session}
use nfs.V4.Setup.{
  Network, Acting, exchange_id_tag, create_session_tag, raw_compound_with_delayed_retry,
  reclaim_complete_with_delayed_retry, or_cleanup,
}
use nfs.V4.Setup.Options.{ClientBuilder, validate_builder, negotiated_minor_versions}

-- The fields of a new client that the server decides on; `open_seqid` starts at 1.
pub record Connected {ℓ} (C : Type ℓ) : Type ℓ where
  pub rpc : C
  pub client_id : ℕ
  pub session_id : Bytes
  pub sequence_id : ℕ
  pub open_seqid : ℕ
  pub minor_version : ℕ
  pub max_operations : ℕ
  pub max_request_size : ℕ
  pub max_response_size : ℕ

-- max_operations of the channel
abbrev default_channel : ℕ → ChannelAttrs
default_channel max_operations = record {
  header_pad_size = 0;
  max_request_size = 1024 * 1024;
  max_response_size = 1024 * 1024;
  max_response_size_cached = 1024 * 1024;
  max_operations = max_operations;
  max_requests = 1;
  rdma_ird = [];
}

abbrev pub fore_channel_default : ChannelAttrs
fore_channel_default = default_channel 64

abbrev pub back_channel_disabled : ChannelAttrs
back_channel_disabled = default_channel 8

unfoldable pub is_minor_version_mismatch : Error → Bool
is_minor_version_mismatch (nfs_v4 operation Status.minor_version_mismatch) = true
is_minor_version_mismatch _ = false

-- EXCHGID4_FLAG_USE_NON_PNFS is 0x10000.
abbrev pub exchange_operation : ClientBuilder → Operation
exchange_operation builder = Operation.exchange_id (record {
  verifier = builder.client_owner_verifier;
  owner_id = builder.owner_id;
  flags = 65536;
})

abbrev pub create_operation : ExchangeIdResult → Operation
create_operation exchange = Operation.create_session (record {
  client_id = exchange.client_id;
  sequence_id = exchange.sequence_id;
  flags = 0;
  fore_channel_attrs = fore_channel_default;
  back_channel_attrs = back_channel_disabled;
  callback_program = 0;
  callback_sec_parms = [];
})

module _ {ℓ} {C N : Type ℓ} (network : Network C N) where
  -- RECLAIM_COMPLETE, where a new client has nothing to reclaim; the sequence id after it
  unfoldable pub completed : C → ClientBuilder → ℕ → Bytes → ℕ → Bool → Acting network ℕ
  completed rpc builder minor_version session_id max_operations false w = pure 1 w
  completed rpc builder minor_version session_id max_operations true w =
      let done =
        reclaim_complete_with_delayed_retry network rpc minor_version session_id max_operations
          builder.retry_policy (1, w) in
      (do
        response ← or_cleanup network rpc minor_version session_id done.0
        or_cleanup network rpc minor_version session_id (ensure_reclaim_complete response)
        pure (done.1).0)
        (done.1).1

  unfoldable pub connect_session_minor : ClientBuilder → ℕ → Bool → Acting network (Connected C)
  unfolding raw_compound_with_delayed_retry completed
  connect_session_minor builder minor_version complete_reclaim = do
    rpc ← λ w.
        ((network.connect builder w.net).0, record w { net = (network.connect builder w.net).1 })
    exchange_res ←
        raw_compound_with_delayed_retry network rpc exchange_id_tag minor_version
          (exchange_operation builder ∷ []) builder.retry_policy
    lift (ensure_ok exchange_res)
    exchange ← lift (response_exchange_id exchange_res)
    session_res ←
        raw_compound_with_delayed_retry network rpc create_session_tag minor_version
          (create_operation exchange ∷ []) builder.retry_policy
    lift (ensure_ok session_res)
    session ← lift (response_create_session session_res)
    or_cleanup network rpc minor_version session.session_id
        (validate_session_channel_attrs session.fore_channel_attrs)
    max_operations ←
        or_cleanup network rpc minor_version session.session_id
          (session_max_operations session.fore_channel_attrs)
    sequence_id ←
        completed rpc builder minor_version session.session_id max_operations complete_reclaim
    pure (record {
      rpc = rpc;
      client_id = exchange.client_id;
      session_id = session.session_id;
      sequence_id = sequence_id;
      open_seqid = 1;
      minor_version = minor_version;
      max_operations = max_operations;
      max_request_size = (session.fore_channel_attrs).max_request_size;
      max_response_size = (session.fore_channel_attrs).max_response_size;
    })

  abbrev pub no_version : Option Error → Error
  no_version none = protocol "NFSv4 server did not accept a supported minor version"
  no_version (some last_minor_error) = last_minor_error

  -- the loop over the minor versions
  unfoldable pub try_minor_versions :
      ClientBuilder → Bool → Option Error → List ℕ → Acting network (Connected C)
  unfolding connect_session_minor
  try_minor_versions builder complete_reclaim last_minor_error [] =
      raise (no_version last_minor_error)
  try_minor_versions builder complete_reclaim last_minor_error (minor_version ∷ minor_versions) = do
    tried ← attempt (connect_session_minor builder minor_version complete_reclaim)
    elim tried [
      | ok connected ↦ pure connected
      | err e ↦ elim (is_minor_version_mismatch e) [
        | true ↦ try_minor_versions builder complete_reclaim (some e) minor_versions
        | false ↦ raise e
      ]
    ]

  unfoldable pub connect_session : ClientBuilder → Bool → Acting network (Connected C)
  unfolding try_minor_versions
  connect_session builder complete_reclaim = do
    lift (validate_builder builder)
    try_minor_versions builder complete_reclaim none
        (negotiated_minor_versions builder.max_minor_version)
