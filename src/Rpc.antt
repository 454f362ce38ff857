-- ===== src/Rpc.antt =====
-- src/rpc/JsonRpcClient.cpp: `JsonRpcClient::call`. The JSON library is an interface, and what curl does
-- with a request is an argument.
use risk_sentinel.Common.{
  ℕ, Bool, not, Option, none, some, List, [], ◌∷◌, ◌++◌, Bytes, codes, ◌==◌, if◌then◌else◌, Outcome,
  ok, err,
}
use risk_sentinel.Common.Digits.{to_string}

-- The values of nlohmann::json, and what is made of them.
pub record JsonValue (J : Type 0) : Type 0 where
  pub contains : J → Bytes → Bool
  -- `at`, which throws where there is no such member
  pub at : J → Bytes → Outcome J
  pub is_null : J → Bool
  pub is_array : J → Bool
  pub items : J → List J
  pub get_string : J → Outcome Bytes
  pub get_bool : J → Outcome Bool
  pub text : Bytes → J
  pub flag : Bool → J
  pub number : ℕ → J
  pub array : List J → J
  pub object : List (Bytes × J) → J
  pub dump : J → Bytes
  pub parse : Bytes → Outcome J

-- What curl does with a request: whether there is a handle, the text of an error, the HTTP status and
-- the body of the answer.
pub record Reply : Type 0 where
  pub handle : Bool
  pub failure : Option Bytes
  pub http_code : ℕ
  pub response : Bytes

pub record JsonRpcClient (J : Type 0) : Type 0 where
  pub send : Bytes → Reply

-- The counter of `rpc_calls_total` that is incremented.
pub data Status : Type 0 where
  success : Status
  error : Status

module _ {J : Type 0} ⦃json : JsonValue J⦄ where
  unfoldable pub request : Bytes → J → J
  request method params = json.object (
      (codes "jsonrpc", json.text (codes "2.0"))
      ∷ (codes "id", json.number 1)
      ∷ (codes "method", json.text method)
      ∷ (codes "params", params)
      ∷ [])

  -- `json["error"].dump()` of a value that has the member
  unfoldable pub dump_member : Outcome J → Bytes
  dump_member (ok value) = json.dump value
  dump_member (err e) = []

  -- What an answer in JSON says.
  unfoldable pub checked : J → Outcome J × Option Status
  unfolding dump_member
  checked value =
      if json.contains value (codes "error")
      then (
        err (codes "JSON-RPC error: " ++ dump_member (json.at value (codes "error"))),
        some Status.error,
      )
      else if not (json.contains value (codes "result"))
      then (
        err (codes "JSON-RPC response missing result field: " ++ json.dump value),
        some Status.error,
      )
      else (ok value, some Status.success)

  -- An answer that is no JSON is not counted.
  unfoldable pub parsed : Outcome J → Bytes → Outcome J × Option Status
  unfolding checked
  parsed (err what) response =
      (err (codes "JSON parse failed: " ++ (what ++ (codes ", response=" ++ response))), none)
  parsed (ok value) response = checked value

  unfoldable pub performed : Option Bytes → Reply → Outcome J × Option Status
  unfolding parsed
  performed (some what) reply =
      (err (codes "curl_easy_perform failed: " ++ what), some Status.error)
  performed none reply =
      let answer = parsed (json.parse reply.response) reply.response in
      if not (reply.http_code == 200)
      then (
        err (
            codes "JSON-RPC HTTP error: "
            ++ (to_string reply.http_code ++ (codes ", response=" ++ reply.response))),
        some Status.error,
      )
      else answer

  -- The answer of a call, or what it throws, and the counter that it increments.
  unfoldable pub call : JsonRpcClient J → Bytes → J → Outcome J × Option Status
  unfolding request performed
  call rpc method params =
      let reply = rpc.send (json.dump (request method params)) in
      if not reply.handle
      then (err (codes "curl_easy_init failed"), some Status.error)
      else performed reply.failure reply
