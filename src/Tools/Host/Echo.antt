-- ===== src/Tools/Host/Echo.antt =====
-- The echo of the arguments in a confirmation's payload. Code: `_echo_args` of
-- mcp_governance_gateway/mcp.py.
use Prim.Native.String.{count}
use mcp_governance_gateway.Base.{String, ◌<>◌, ltb, if◌then◌else◌}
use mcp_governance_gateway.Base.Text.{show, take}
use mcp_governance_gateway.Runtime.{Runtime}
use mcp_governance_gateway.Value.{Value, str, arr, obj, Items, nil, cons, Fields, end, field}

module _ (rt : Runtime) where
  unfoldable pub echo_text : String → Value
  echo_text s =
      if ltb 200 (count s)
      then str ("<" <> show (count s) <> " chars, sha256:" <> take 8 (rt.sha256 s) <> ">")
      else str s

  unfoldable mutual
    pub echo : Value → Value
    echo (str s) = echo_text s
    echo (obj fs) = obj (echo_fields fs)
    echo (arr vs) = arr (echo_items vs)
    echo value = value

    pub echo_items : Items → Items
    echo_items nil = nil
    echo_items (cons v vs) = cons (echo v) (echo_items vs)

    pub echo_fields : Fields → Fields
    echo_fields end = end
    echo_fields (field k v fs) = field k (echo v) (echo_fields fs)
