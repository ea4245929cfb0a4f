-- ===== src/Http/Types.antt =====
-- The data of an HTTP context.
use erishttp.Common.{ℕ, Bool, List}
use erishttp.EString.{EString}
use erishttp.Buffer.{Buffer}

-- `eris_http_command_e`
pub data Command : Type 0 where
  unknow get head post put delete options trace patch : Command
  move copy link unlink purge lock unlock propfind view : Command

-- `eris_http_version_e`
pub data Version : Type 0 where
  v00 v09 v10 v11 : Version

-- `eris_http_attr_s`
pub record Attrs : Type 0 where
  pub url_max_size : ℕ
  pub header_max_size : ℕ
  pub body_max_size : ℕ
  pub header_cache_size : ℕ
  pub body_cache_size : ℕ

-- `eris_http_hnode_s`; the list is linked at its head.
abbrev pub Hnode : Type 0
Hnode = EString × EString

-- `eris_http_request_s`
pub record Request : Type 0 where
  pub shake : Bool
  pub command : Command
  pub url : EString
  pub version : Version
  pub headers : List Hnode
  pub parameters : EString
  pub query : EString
  pub fragment : EString
  pub body : Buffer

-- `eris_http_response_s` as far as the request parser and the chunk parser write it. `reason` is the status code whose
-- phrase was stored, 0 at first.
pub record Response : Type 0 where
  pub status : ℕ
  pub version : Version
  pub reason : ℕ
  pub body : Buffer

-- `eris_http_chunk_state_e`
pub data ChunkState : Type 0 where
  chunked chunk_size chunk_ext_name chunk_ext_value chunk_cr1 chunk_lf1 chunk_cr2 : ChunkState
  chunk_lf2 chunk_trailer_name chunk_trailer_value chunk_data chunk_data_cr : ChunkState
  chunk_data_lf chunked_finish : ChunkState

-- `eris_http_s` without its log
pub record Http : Type 0 where
  pub attrs : Attrs
  pub request : Request
  pub response : Response
  pub hbuffer : Buffer
  pub bbuffer : Buffer
  pub chunk_state : ChunkState
  pub is_chunked : Bool
  pub chunked_end : Bool
  pub chunk_size : ℕ
  pub tmp_chunk_size : ℕ
