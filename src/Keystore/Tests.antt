-- ===== src/Keystore/Tests.antt =====
-- A credential enrolled and read back, with a cipher that hides nothing.
use mcp_governance_gateway.Base.{
  String, ◌≡◌, ◌≢◌, refl, inl, true, false, none, arith, some, [], ◌∷◌,
}
use mcp_governance_gateway.Base.Dict.{get, put}
use mcp_governance_gateway.Base.Eq.{string_eq}
use mcp_governance_gateway.Errors.{ok}
use mcp_governance_gateway.Hotfile.{Access, start, reload, refresh}
use mcp_governance_gateway.Value.{str, dict}
use mcp_governance_gateway.Keystore.{
  key_ok, missing, Cipher, IsInverse, Keys, Records, CredentialStore, find, get_key,
}
use mcp_governance_gateway.Keystore.Write.{
  Drawn, actor_map, with_record, written, active, set_key, clear_key,
}
use mcp_governance_gateway.Keystore.Cleared.{find-clear_key}
use mcp_governance_gateway.Keystore.RoundTrip.{get_key-set_key, set_key-others}

abbrev plain : Cipher
plain = record { seal = λ master nonce aad text. text; unseal = λ master aad ct. some ct }

plain-IsInverse : IsInverse plain
plain-IsInverse = λ master nonce aad text. refl

abbrev keys : Keys
keys = record {
  cipher = plain;
  available = true;
  active_key_id = some "k1";
  master_keys = ("k1", "m1") ∷ [];
}

-- Bob's entry is of the old form.
abbrev on_disk : Access Records
on_disk = record {
  seen = none ∷ [];
  locked = none ∷ [];
  parsed = λ previous. ok (("bob", dict (("ct", str "old") ∷ ("key_id", str "k1") ∷ [])) ∷ []);
  now = 0;
}

abbrev drawn : Drawn
drawn = record { nonce = "n"; updated_at = "today"; signature = some (1, (2, 3)) ∷ [] }

abbrev behind_write : Access Records
behind_write = record on_disk { seen = some (1, (2, 3)) ∷ [] }

abbrev empty : CredentialStore
empty = start true []

stored : (set_key keys on_disk drawn "ann" "secret" none "redmine" empty).0 ≡ ok tt
unfolding set_key active refresh reload start with_record written actor_map get put
stored = refl

get_key-set_key_example :
    (get_key keys behind_write "ann" "redmine"
      (set_key keys on_disk drawn "ann" "secret" none "redmine" empty).1).0
    ≡ (key_ok, some "secret")
get_key-set_key_example =
    get_key-set_key keys on_disk behind_write drawn "ann" "secret" none "redmine" empty
      plain-IsInverse stored refl

ann≢bob : ◌≢◌ {A = String} "ann" "bob"
ann≢bob = ground (arith, string_eq.beq_iff "ann" "bob")

set_key-others_example :
    (get_key keys behind_write "bob" "redmine"
      (set_key keys on_disk drawn "ann" "secret" none "redmine" empty).1).0
    ≡ find keys (refresh true false on_disk empty).value "bob" "redmine"
set_key-others_example =
    set_key-others keys on_disk behind_write drawn "ann" "secret" none "redmine" empty "bob"
      "redmine" (inl ann≢bob) stored refl

find-clear_key_example :
    find keys (clear_key keys on_disk [] "bob" "redmine" empty).1.value "bob" "redmine"
    ≡ (missing, none)
find-clear_key_example = find-clear_key keys on_disk [] "bob" "redmine" empty
