-- ===== src/Tests/Vectors.antt =====
-- The tests of crates/wow-srp/src/lib.rs with the bytes that they fix, under the standard SHA-1.
use azerust.Prelude.{◌≡◌, refl, Bool, true, false, Option, some, none, List, ℕ, [], ◌∷◌, bytes_eq}
use azerust.Prelude.Text.{codes}
use azerust.Prelude.Outcome.{Outcome, Never, ok, err, panic, ◌>>=◌}
use azerust.Srp.{
  derive_session_key, new_with_b, calculate_b_pub, from_credentials, verify_challenge_response,
  expected_proof, premaster_secret, credentials_hash,
}
use azerust.Tests.Standard.{standard}

-- A computation gives exactly these bytes.
abbrev gives : Outcome Never (List ℕ) → List ℕ → Bool
gives (ok bs) expected = bytes_eq bs expected
gives (err e) expected = false
gives panic expected = false

abbrev test_session_key_derivation : Bool
test_session_key_derivation =
    gives
      (derive_session_key standard (
        19 ∷ 10 ∷ 81 ∷ 2 ∷ 224 ∷ 175 ∷ 69 ∷ 69 ∷ 84 ∷ 172 ∷ 123 ∷ 122 ∷ 83 ∷ 70 ∷ 70 ∷ 11 ∷ 104 ∷ 26
        ∷ 227 ∷ 161 ∷ 13 ∷ 124 ∷ 152 ∷ 156 ∷ 116 ∷ 130 ∷ 69 ∷ 161 ∷ 134 ∷ 49 ∷ 47 ∷ 87 ∷ []))
      (250 ∷ 249 ∷ 162 ∷ 120 ∷ 246 ∷ 212 ∷ 243 ∷ 32 ∷ 54 ∷ 127 ∷ 15 ∷ 13 ∷ 84 ∷ 137 ∷ 96 ∷ 197 ∷ 162
        ∷ 197 ∷ 95 ∷ 221 ∷ 107 ∷ 218 ∷ 252 ∷ 23 ∷ 37 ∷ 95 ∷ 250 ∷ 83 ∷ 182 ∷ 53 ∷ 105 ∷ 254 ∷ 23
        ∷ 14 ∷ 207 ∷ 191 ∷ 85 ∷ 207 ∷ 209 ∷ 111 ∷ [])

test_session_key_derivation_passes : test_session_key_derivation ≡ true
unfolding derive_session_key bytes_eq
test_session_key_derivation_passes = refl

abbrev is_accepted : Outcome Never (Option (List ℕ)) → Bool
is_accepted (ok (some key)) = true
is_accepted (ok none) = false
is_accepted (err e) = false
is_accepted panic = false

abbrev test_challenge_response : Bool
test_challenge_response =
    let a_pub =
      177 ∷ 187 ∷ 117 ∷ 101 ∷ 30 ∷ 135 ∷ 85 ∷ 86 ∷ 180 ∷ 130 ∷ 85 ∷ 39 ∷ 48 ∷ 20 ∷ 11 ∷ 106 ∷ 214
      ∷ 92 ∷ 84 ∷ 103 ∷ 232 ∷ 177 ∷ 228 ∷ 146 ∷ 224 ∷ 172 ∷ 207 ∷ 133 ∷ 107 ∷ 59 ∷ 208 ∷ 18 ∷ [] in
    let client_m =
      146 ∷ 204 ∷ 135 ∷ 140 ∷ 185 ∷ 242 ∷ 195 ∷ 134 ∷ 82 ∷ 178 ∷ 161 ∷ 241 ∷ 103 ∷ 186 ∷ 206 ∷ 104
      ∷ 255 ∷ 211 ∷ 141 ∷ 6 ∷ [] in
    is_accepted (
      new_with_b standard (codes "ARLYON")
        (224 ∷ 222 ∷ 178 ∷ 127 ∷ 204 ∷ 184 ∷ 244 ∷ 126 ∷ 70 ∷ 90 ∷ 69 ∷ 35 ∷ 84 ∷ 22 ∷ 9 ∷ 131 ∷ 253
          ∷ 198 ∷ 54 ∷ 56 ∷ 240 ∷ 56 ∷ 90 ∷ 214 ∷ 234 ∷ 20 ∷ 89 ∷ 54 ∷ 177 ∷ 3 ∷ 71 ∷ 245 ∷ [])
        (83 ∷ 39 ∷ 153 ∷ 164 ∷ 62 ∷ 235 ∷ 129 ∷ 78 ∷ 56 ∷ 219 ∷ 154 ∷ 148 ∷ 34 ∷ 246 ∷ 103 ∷ 86
          ∷ 198 ∷ 149 ∷ 125 ∷ 69 ∷ 184 ∷ 96 ∷ 172 ∷ 156 ∷ 203 ∷ 86 ∷ 185 ∷ 27 ∷ 161 ∷ 55 ∷ 61 ∷ 8
          ∷ [])
        (240 ∷ 164 ∷ 187 ∷ 96 ∷ 28 ∷ 179 ∷ 229 ∷ 3 ∷ 65 ∷ 38 ∷ 208 ∷ 199 ∷ 149 ∷ 115 ∷ 25 ∷ 211
          ∷ 203 ∷ 13 ∷ 123 ∷ 214 ∷ 254 ∷ 46 ∷ 60 ∷ 159 ∷ 111 ∷ 12 ∷ 39 ∷ 40 ∷ 23 ∷ 85 ∷ 118 ∷ 31
          ∷ [])
      >>= λ server. verify_challenge_response standard server a_pub client_m)

test_challenge_response_passes : test_challenge_response ≡ true
unfolding new_with_b calculate_b_pub verify_challenge_response expected_proof premaster_secret
    derive_session_key bytes_eq
test_challenge_response_passes = refl

abbrev test_calculate_b_pub : Bool
test_calculate_b_pub =
    gives
      (calculate_b_pub standard
        (240 ∷ 164 ∷ 187 ∷ 96 ∷ 28 ∷ 179 ∷ 229 ∷ 3 ∷ 65 ∷ 38 ∷ 208 ∷ 199 ∷ 149 ∷ 115 ∷ 25 ∷ 211
          ∷ 203 ∷ 13 ∷ 123 ∷ 214 ∷ 254 ∷ 46 ∷ 60 ∷ 159 ∷ 111 ∷ 12 ∷ 39 ∷ 40 ∷ 23 ∷ 85 ∷ 118 ∷ 31
          ∷ [])
        (110 ∷ 114 ∷ 108 ∷ 105 ∷ 100 ∷ 115 ∷ 110 ∷ 114 ∷ 100 ∷ 115 ∷ 0 ∷ 0 ∷ 0 ∷ 0 ∷ 0 ∷ 0 ∷ 0 ∷ 0
          ∷ 0 ∷ 0 ∷ 0 ∷ 0 ∷ 0 ∷ 0 ∷ 0 ∷ 0 ∷ 0 ∷ 0 ∷ 0 ∷ 0 ∷ 0 ∷ 0 ∷ []))
      (207 ∷ 248 ∷ 81 ∷ 226 ∷ 241 ∷ 107 ∷ 212 ∷ 253 ∷ 104 ∷ 21 ∷ 206 ∷ 66 ∷ 202 ∷ 67 ∷ 72 ∷ 65 ∷ 242
        ∷ 27 ∷ 42 ∷ 111 ∷ 204 ∷ 187 ∷ 209 ∷ 246 ∷ 130 ∷ 204 ∷ 13 ∷ 78 ∷ 184 ∷ 205 ∷ 74 ∷ 56 ∷ [])

test_calculate_b_pub_passes : test_calculate_b_pub ≡ true
unfolding calculate_b_pub bytes_eq
test_calculate_b_pub_passes = refl

abbrev verifier_from_credentials : Bool
verifier_from_credentials =
    gives
      (from_credentials standard (codes "ARLYON") (codes "TEST") (
        187 ∷ 90 ∷ 185 ∷ 129 ∷ 207 ∷ 201 ∷ 1 ∷ 39 ∷ 118 ∷ 43 ∷ 185 ∷ 47 ∷ 102 ∷ 19 ∷ 75 ∷ 54 ∷ 17
        ∷ 102 ∷ 255 ∷ 182 ∷ 144 ∷ 248 ∷ 239 ∷ 202 ∷ 238 ∷ 158 ∷ 71 ∷ 164 ∷ 216 ∷ 195 ∷ 53 ∷ 226
        ∷ []))
      (44 ∷ 42 ∷ 171 ∷ 164 ∷ 129 ∷ 208 ∷ 59 ∷ 156 ∷ 50 ∷ 148 ∷ 246 ∷ 223 ∷ 12 ∷ 222 ∷ 85 ∷ 21 ∷ 129
        ∷ 251 ∷ 36 ∷ 170 ∷ 7 ∷ 130 ∷ 79 ∷ 109 ∷ 238 ∷ 227 ∷ 72 ∷ 88 ∷ 196 ∷ 33 ∷ 67 ∷ 90 ∷ [])

verifier_from_credentials_passes : verifier_from_credentials ≡ true
unfolding from_credentials credentials_hash bytes_eq
verifier_from_credentials_passes = refl
