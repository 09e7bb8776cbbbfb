-- ===== src/Ws/Protocol.antt =====
-- internal/ws/protocol.go: the messages. A frame's `Type` field is its constructor here.
use distil_proxy.Base.{List}
use distil_proxy.Base.Int.{ℤ}
use distil_proxy.Base.Text.{Text, codes}
use distil_proxy.Fetch.{Bytes}

abbrev pub default_protocol_version : Text
default_protocol_version = codes "1.0.0"

-- From the server.
pub record FetchRequest : Type 0 where
  pub id : Text
  pub url : Text
  pub method : Text
  pub headers : List (Text × Text)
  pub body_base64 : Text
  pub timeout_ms : ℤ

-- From the daemon.
pub record FetchResult : Type 0 where
  pub id : Text
  pub status : ℤ
  pub headers : List (Text × Text)
  pub body : Bytes
  pub final_url : Text
  pub elapsed_ms : ℤ

pub record FetchFailure : Type 0 where
  pub id : Text
  pub error : Text
  pub message : Text

pub data Frame : Type 0 where
  result : FetchResult → Frame
  fetch_error : FetchFailure → Frame
  ping : Frame
  pong : Frame
