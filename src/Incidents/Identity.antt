-- ===== src/Incidents/Identity.antt =====
-- `incident_fingerprint` of uyuni_ai_agent/incident_store.py: the JSON text of an identity, and its
-- digest.
use uyuni_ai.Common.{
  ℕ, ◌+◌, ◌-◌, ◌/◌, ◌%◌, ◌==◌, ◌||◌, List, [], ◌∷◌, ◌++◌, String, ltb, if◌then◌else◌,
}
use uyuni_ai.Common.Text.{codes}
use uyuni_ai.Anomaly.{Anomaly, IdentityKey, identity_key}

-- a hexadecimal digit, in lower case
pub hex_digit : ℕ → ℕ
hex_digit n = if ltb n 10 then b'0' + n else b'a' + (n - 10)

-- `\uXXXX`
pub unicode_escape : ℕ → List ℕ
unicode_escape n =
    b'\\'
    ∷ b'u'
    ∷ hex_digit (n / 4096)
    ∷ hex_digit (n / 256 % 16)
    ∷ hex_digit (n / 16 % 16)
    ∷ hex_digit (n % 16)
    ∷ []

-- one character inside a string of `json.dumps(…, ensure_ascii=True)`
unfoldable pub escape : ℕ → List ℕ
escape c =
    if c == 34
    then 92 ∷ 34 ∷ []
    else if c == 92
    then 92 ∷ 92 ∷ []
    else if c == 10
    then 92 ∷ b'n' ∷ []
    else if c == 13
    then 92 ∷ b'r' ∷ []
    else if c == 9
    then 92 ∷ b't' ∷ []
    else if c == 12
    then 92 ∷ b'f' ∷ []
    else if c == 8
    then 92 ∷ b'b' ∷ []
    else if ltb c 32 || ltb 126 c
    then (if ltb c 65536
        then unicode_escape c
        else unicode_escape (55296 + (c - 65536) / 1024)
          ++ unicode_escape (56320 + (c - 65536) % 1024))
    else c ∷ []

unfoldable pub escape_all : List ℕ → List ℕ
escape_all [] = []
escape_all (c ∷ cs) = escape c ++ escape_all cs

unfoldable pub json_string : String → List ℕ
json_string s = 34 ∷ (escape_all (codes s) ++ (34 ∷ []))

-- json.dumps(list(key), ensure_ascii=True, separators=(",", ":"))
unfoldable pub json_identity : IdentityKey → List ℕ
json_identity key =
    b'['
    ∷ (json_string key.minion_id
        ++ (b','
            ∷ (json_string key.metric_name
                ++ (b','
                    ∷ (json_string key.service_name
                        ++ (b',' ∷ (json_string key.resource ++ (b']' ∷ []))))))))

-- `digest` takes bytes to the number that the first 32 hexadecimal digits of their SHA-256 spell.
unfoldable pub incident_fingerprint : (List ℕ → ℕ) → Anomaly → ℕ
incident_fingerprint digest a = digest (json_identity (identity_key a))
