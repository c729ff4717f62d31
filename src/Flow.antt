-- ===== src/Flow.antt =====
-- mcp.go, the views of flows: bodies as text or as Base64.
pub mod Base64
pub mod Lossless
use skytap.Common.{
  ℕ, Bool, true, false, not, ◌&&◌, ◌||◌, List, [], ◌∷◌, map, is_empty, eqb, if◌then◌else◌,
}
use skytap.Text.{Str, codes}
use skytap.Text.Utf8.{valid}
use skytap.Flow.Base64.{encode}

-- The fields of gomitm.Flow that the program reads.
pub record FlowFields (F : Type 0) : Type 1 where
  pub Time : Type 0
  pub time : F → Time
  pub host : F → Str
  pub method : F → Str
  pub path : F → Str
  pub status : F → ℕ
  pub req_size : F → ℕ
  pub res_size : F → ℕ
  pub mocked : F → Bool
  pub req_body : F → Str
  pub res_body : F → Str
  pub req_truncated : F → Bool
  pub res_truncated : F → Bool

pub record FlowView (Time : Type 0) : Type 0 where
  pub time : Time
  pub host : Str
  pub method : Str
  pub path : Str
  pub status : ℕ
  pub req_size : ℕ
  pub res_size : ℕ
  pub mocked : Bool
  pub req_body : Str
  pub res_body : Str
  pub req_encoding : Str
  pub res_encoding : Str
  pub req_truncated : Bool
  pub res_truncated : Bool

unfoldable pub bytes_look_binary : Str → Bool
bytes_look_binary [] = false
bytes_look_binary (c ∷ s) = eqb c 0 || bytes_look_binary s

-- The text and the name of its encoding.
unfoldable pub encode_body : Str → Str × Str
encode_body b =
    if is_empty b
    then ([], [])
    else if valid b && not (bytes_look_binary b)
    then (b, codes "utf8")
    else (encode b, codes "base64")

module _ {F : Type 0} (fields : FlowFields F) where
  open fields use {Time}

  unfoldable flow_view : F → FlowView Time
  flow_view f =
      let (req_s, req_e) = encode_body (fields.req_body f) in
      let (res_s, res_e) = encode_body (fields.res_body f) in
      record {
        time = fields.time f;
        host = fields.host f;
        method = fields.method f;
        path = fields.path f;
        status = fields.status f;
        req_size = fields.req_size f;
        res_size = fields.res_size f;
        mocked = fields.mocked f;
        req_body = req_s;
        res_body = res_s;
        req_encoding = req_e;
        res_encoding = res_e;
        req_truncated = fields.req_truncated f;
        res_truncated = fields.res_truncated f;
      }

  unfoldable pub flow_views : List F → List (FlowView Time)
  unfolding flow_view
  flow_views fs = map flow_view fs
