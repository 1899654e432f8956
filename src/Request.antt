-- ===== src/Request.antt =====
-- The state that src/http_request.c works on: `http_request_t` of src/http.h and `buf_t` of
-- src/buf.h, over one memory.
pub mod Buffer
use xwp_server.Base.{ℕ, Bool, Option, List, ℤ}
use xwp_server.Memory.{Mem, Slice}
use xwp_server.Parse.Url.{Url}
use xwp_server.Http.Headers.{Header}

-- `http_method_e`
pub data Method : Type 0 where
  get post head put : Method

-- `http_version_e`
pub data Version : Type 0 where
  http_10 http_11 : Version

-- `http_process_state_e`
pub data State : Type 0 where
  stat_none stat_request_line stat_header_line stat_content_body stat_status_line : State

-- `buf_t`, by addresses
pub record Buf : Type 0 where
  pub start : ℕ
  pub end : ℕ
  pub pos : ℕ
  pub last : ℕ

-- The sizes of `conf_t` that requests use.
pub record Conf : Type 0 where
  pub client_header_size : ℕ
  pub large_client_header_size : ℕ
  pub content_body_buf_size : ℕ
  pub max_content_len : ℕ

-- `http_content_body_t` but for its file: what `content` points to, and `content_len`
pub record Body : Type 0 where
  pub content_len : ℤ
  pub content : Option Buf

-- `http_request_t`, with the memory and the first address that no allocation has taken.
pub record Request : Type 0 where
  pub mem : Mem
  pub free : ℕ
  pub conf : Conf
  pub state : State
  pub method_str : Option Slice
  pub method : Method
  pub url : Url
  pub version_str : Option Slice
  pub version : Version
  pub status : ℕ
  pub keep_alive : Bool
  pub continued : Bool
  pub header_buf : Buf
  pub headers_in : List Header
  pub headers_out : List Header
  pub in_content_len : ℤ
  pub out_content_len : ℤ
