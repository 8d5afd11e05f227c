-- ===== src/V4/Transfer.antt =====
-- src/v4/proto.rs: what the session setup and the operations that move data send and report, as far as the
-- client looks into it.
use nfs.Prelude.{ℕ, Bool, List, Option, leb}
use nfs.V4.Args.{Bytes, Xdr, StateId, ChannelAttrs}

pub record ExchangeIdArgs : Type 0 where
  pub verifier : Bytes
  pub owner_id : Bytes
  pub flags : ℕ

pub record ExchangeIdResult : Type 0 where
  pub client_id : ℕ
  pub sequence_id : ℕ
  pub flags : ℕ

pub record CreateSessionArgs : Type 0 where
  pub client_id : ℕ
  pub sequence_id : ℕ
  pub flags : ℕ
  pub fore_channel_attrs : ChannelAttrs
  pub back_channel_attrs : ChannelAttrs
  pub callback_program : ℕ
  pub callback_sec_parms : List Xdr

pub record CreateSessionResult : Type 0 where
  pub session_id : Bytes
  pub sequence_id : ℕ
  pub flags : ℕ
  pub fore_channel_attrs : ChannelAttrs
  pub back_channel_attrs : ChannelAttrs

pub data StableHow : Type 0 where
  unstable data_sync file_sync : StableHow

pub record CopyRequirements : Type 0 where
  pub consecutive : Bool
  pub synchronous : Bool

pub record WriteResult : Type 0 where
  pub count : ℕ
  pub committed : StableHow
  pub verifier : Bytes

pub record CommitResult : Type 0 where
  pub verifier : Bytes

pub record WriteResponse : Type 0 where
  pub callback_id : Option StateId
  pub count : ℕ
  pub committed : StableHow
  pub verifier : Bytes

pub record CopyResult : Type 0 where
  pub response : Option WriteResponse
  pub requirements : Option CopyRequirements

pub data ReadPlusContent : Type 0 where
  -- offset, data
  data_at : ℕ → Bytes → ReadPlusContent
  -- offset, length
  hole : ℕ → ℕ → ReadPlusContent

pub record ReadPlusResult : Type 0 where
  pub eof : Bool
  pub contents : List ReadPlusContent

pub record GetDeviceListResult : Type 0 where
  pub cookie : ℕ
  pub cookieverf : Bytes
  pub device_ids : List Bytes
  pub eof : Bool

abbrev stable_how : StableHow → ℕ
stable_how unstable = 0
stable_how data_sync = 1
stable_how file_sync = 2

-- `self >= requested`, in the order of the variants
unfoldable pub satisfies : StableHow → StableHow → Bool
satisfies reported requested = leb (stable_how requested) (stable_how reported)
