-- ===== src/X509/TestCerts.antt =====
-- The certificates of tests/x509_test_certs.h: a leaf and the root that signed it.
use nano_dtls.Base.{
  ltb, ◌&&◌, IsBytes, Bool, Bool-cases, inl, inr, arith, ◌≡◌, refl, true, false, [], ◌∷◌, Bytes, ok,
}
use nano_dtls.Base.{byte_at}
use nano_dtls.Asn1
use nano_dtls.X509.{Cert}
use nano_dtls.X509
use nano_dtls.X509.Parse.{x509_parse}
use nano_dtls.X509.Parse

-- `LEAF_CERT_DER`
abbrev pub leaf_der : Bytes
leaf_der =
    48 ∷ 130 ∷ 1 ∷ 154 ∷ 48 ∷ 130 ∷ 1 ∷ 63 ∷ 160 ∷ 3 ∷ 2 ∷ 1 ∷ 2 ∷ 2 ∷ 20 ∷ 97 ∷ 100 ∷ 28 ∷ 25 ∷ 169
    ∷ 217 ∷ 202 ∷ 185 ∷ 45 ∷ 38 ∷ 32 ∷ 228 ∷ 151 ∷ 233 ∷ 181 ∷ 154 ∷ 250 ∷ 193 ∷ 141 ∷ 76 ∷ 48 ∷ 10
    ∷ 6 ∷ 8 ∷ 42 ∷ 134 ∷ 72 ∷ 206 ∷ 61 ∷ 4 ∷ 3 ∷ 2 ∷ 48 ∷ 33 ∷ 49 ∷ 31 ∷ 48 ∷ 29 ∷ 6 ∷ 3 ∷ 85 ∷ 4
    ∷ 3 ∷ 12 ∷ 22 ∷ 110 ∷ 97 ∷ 110 ∷ 111 ∷ 45 ∷ 100 ∷ 116 ∷ 108 ∷ 115 ∷ 32 ∷ 84 ∷ 101 ∷ 115 ∷ 116
    ∷ 32 ∷ 82 ∷ 111 ∷ 111 ∷ 116 ∷ 32 ∷ 67 ∷ 65 ∷ 48 ∷ 30 ∷ 23 ∷ 13 ∷ 50 ∷ 54 ∷ 48 ∷ 56 ∷ 48 ∷ 52
    ∷ 48 ∷ 53 ∷ 50 ∷ 48 ∷ 53 ∷ 50 ∷ 90 ∷ 23 ∷ 13 ∷ 50 ∷ 56 ∷ 49 ∷ 49 ∷ 48 ∷ 54 ∷ 48 ∷ 53 ∷ 50 ∷ 48
    ∷ 53 ∷ 50 ∷ 90 ∷ 48 ∷ 28 ∷ 49 ∷ 26 ∷ 48 ∷ 24 ∷ 6 ∷ 3 ∷ 85 ∷ 4 ∷ 3 ∷ 12 ∷ 17 ∷ 110 ∷ 97 ∷ 110
    ∷ 111 ∷ 45 ∷ 100 ∷ 116 ∷ 108 ∷ 115 ∷ 46 ∷ 101 ∷ 120 ∷ 97 ∷ 109 ∷ 112 ∷ 108 ∷ 101 ∷ 48 ∷ 89 ∷ 48
    ∷ 19 ∷ 6 ∷ 7 ∷ 42 ∷ 134 ∷ 72 ∷ 206 ∷ 61 ∷ 2 ∷ 1 ∷ 6 ∷ 8 ∷ 42 ∷ 134 ∷ 72 ∷ 206 ∷ 61 ∷ 3 ∷ 1 ∷ 7
    ∷ 3 ∷ 66 ∷ 0 ∷ 4 ∷ 196 ∷ 67 ∷ 95 ∷ 126 ∷ 1 ∷ 123 ∷ 185 ∷ 195 ∷ 89 ∷ 191 ∷ 218 ∷ 206 ∷ 26 ∷ 104
    ∷ 52 ∷ 151 ∷ 166 ∷ 6 ∷ 145 ∷ 150 ∷ 63 ∷ 218 ∷ 91 ∷ 39 ∷ 172 ∷ 27 ∷ 50 ∷ 180 ∷ 26 ∷ 35 ∷ 125
    ∷ 150 ∷ 239 ∷ 163 ∷ 100 ∷ 162 ∷ 171 ∷ 7 ∷ 73 ∷ 115 ∷ 163 ∷ 211 ∷ 85 ∷ 168 ∷ 8 ∷ 186 ∷ 244 ∷ 239
    ∷ 174 ∷ 152 ∷ 124 ∷ 132 ∷ 137 ∷ 139 ∷ 109 ∷ 45 ∷ 32 ∷ 121 ∷ 152 ∷ 121 ∷ 170 ∷ 4 ∷ 237 ∷ 214
    ∷ 163 ∷ 90 ∷ 48 ∷ 88 ∷ 48 ∷ 9 ∷ 6 ∷ 3 ∷ 85 ∷ 29 ∷ 19 ∷ 4 ∷ 2 ∷ 48 ∷ 0 ∷ 48 ∷ 11 ∷ 6 ∷ 3 ∷ 85
    ∷ 29 ∷ 15 ∷ 4 ∷ 4 ∷ 3 ∷ 2 ∷ 7 ∷ 128 ∷ 48 ∷ 29 ∷ 6 ∷ 3 ∷ 85 ∷ 29 ∷ 14 ∷ 4 ∷ 22 ∷ 4 ∷ 20 ∷ 51
    ∷ 115 ∷ 121 ∷ 177 ∷ 225 ∷ 57 ∷ 146 ∷ 171 ∷ 83 ∷ 51 ∷ 218 ∷ 232 ∷ 43 ∷ 100 ∷ 86 ∷ 65 ∷ 208 ∷ 126
    ∷ 228 ∷ 104 ∷ 48 ∷ 31 ∷ 6 ∷ 3 ∷ 85 ∷ 29 ∷ 35 ∷ 4 ∷ 24 ∷ 48 ∷ 22 ∷ 128 ∷ 20 ∷ 177 ∷ 70 ∷ 138
    ∷ 174 ∷ 137 ∷ 149 ∷ 198 ∷ 129 ∷ 154 ∷ 228 ∷ 140 ∷ 118 ∷ 200 ∷ 6 ∷ 17 ∷ 87 ∷ 63 ∷ 221 ∷ 61 ∷ 87
    ∷ 48 ∷ 10 ∷ 6 ∷ 8 ∷ 42 ∷ 134 ∷ 72 ∷ 206 ∷ 61 ∷ 4 ∷ 3 ∷ 2 ∷ 3 ∷ 73 ∷ 0 ∷ 48 ∷ 70 ∷ 2 ∷ 33 ∷ 0
    ∷ 211 ∷ 30 ∷ 249 ∷ 42 ∷ 26 ∷ 207 ∷ 87 ∷ 127 ∷ 124 ∷ 88 ∷ 221 ∷ 148 ∷ 151 ∷ 79 ∷ 163 ∷ 182 ∷ 166
    ∷ 56 ∷ 8 ∷ 156 ∷ 82 ∷ 77 ∷ 106 ∷ 110 ∷ 3 ∷ 34 ∷ 44 ∷ 216 ∷ 179 ∷ 210 ∷ 63 ∷ 161 ∷ 2 ∷ 33 ∷ 0
    ∷ 236 ∷ 174 ∷ 163 ∷ 231 ∷ 156 ∷ 180 ∷ 67 ∷ 164 ∷ 74 ∷ 168 ∷ 220 ∷ 166 ∷ 71 ∷ 103 ∷ 99 ∷ 255 ∷ 90
    ∷ 94 ∷ 119 ∷ 93 ∷ 162 ∷ 140 ∷ 142 ∷ 168 ∷ 140 ∷ 131 ∷ 189 ∷ 6 ∷ 158 ∷ 171 ∷ 9 ∷ 89 ∷ []

-- The two certificates as they are parsed.
abbrev pub leaf : Cert
leaf = record {
  tbs_der =
      48 ∷ 130 ∷ 1 ∷ 63 ∷ 160 ∷ 3 ∷ 2 ∷ 1 ∷ 2 ∷ 2 ∷ 20 ∷ 97 ∷ 100 ∷ 28 ∷ 25 ∷ 169 ∷ 217 ∷ 202 ∷ 185
      ∷ 45 ∷ 38 ∷ 32 ∷ 228 ∷ 151 ∷ 233 ∷ 181 ∷ 154 ∷ 250 ∷ 193 ∷ 141 ∷ 76 ∷ 48 ∷ 10 ∷ 6 ∷ 8 ∷ 42
      ∷ 134 ∷ 72 ∷ 206 ∷ 61 ∷ 4 ∷ 3 ∷ 2 ∷ 48 ∷ 33 ∷ 49 ∷ 31 ∷ 48 ∷ 29 ∷ 6 ∷ 3 ∷ 85 ∷ 4 ∷ 3 ∷ 12 ∷ 22
      ∷ 110 ∷ 97 ∷ 110 ∷ 111 ∷ 45 ∷ 100 ∷ 116 ∷ 108 ∷ 115 ∷ 32 ∷ 84 ∷ 101 ∷ 115 ∷ 116 ∷ 32 ∷ 82
      ∷ 111 ∷ 111 ∷ 116 ∷ 32 ∷ 67 ∷ 65 ∷ 48 ∷ 30 ∷ 23 ∷ 13 ∷ 50 ∷ 54 ∷ 48 ∷ 56 ∷ 48 ∷ 52 ∷ 48 ∷ 53
      ∷ 50 ∷ 48 ∷ 53 ∷ 50 ∷ 90 ∷ 23 ∷ 13 ∷ 50 ∷ 56 ∷ 49 ∷ 49 ∷ 48 ∷ 54 ∷ 48 ∷ 53 ∷ 50 ∷ 48 ∷ 53 ∷ 50
      ∷ 90 ∷ 48 ∷ 28 ∷ 49 ∷ 26 ∷ 48 ∷ 24 ∷ 6 ∷ 3 ∷ 85 ∷ 4 ∷ 3 ∷ 12 ∷ 17 ∷ 110 ∷ 97 ∷ 110 ∷ 111 ∷ 45
      ∷ 100 ∷ 116 ∷ 108 ∷ 115 ∷ 46 ∷ 101 ∷ 120 ∷ 97 ∷ 109 ∷ 112 ∷ 108 ∷ 101 ∷ 48 ∷ 89 ∷ 48 ∷ 19 ∷ 6
      ∷ 7 ∷ 42 ∷ 134 ∷ 72 ∷ 206 ∷ 61 ∷ 2 ∷ 1 ∷ 6 ∷ 8 ∷ 42 ∷ 134 ∷ 72 ∷ 206 ∷ 61 ∷ 3 ∷ 1 ∷ 7 ∷ 3 ∷ 66
      ∷ 0 ∷ 4 ∷ 196 ∷ 67 ∷ 95 ∷ 126 ∷ 1 ∷ 123 ∷ 185 ∷ 195 ∷ 89 ∷ 191 ∷ 218 ∷ 206 ∷ 26 ∷ 104 ∷ 52
      ∷ 151 ∷ 166 ∷ 6 ∷ 145 ∷ 150 ∷ 63 ∷ 218 ∷ 91 ∷ 39 ∷ 172 ∷ 27 ∷ 50 ∷ 180 ∷ 26 ∷ 35 ∷ 125 ∷ 150
      ∷ 239 ∷ 163 ∷ 100 ∷ 162 ∷ 171 ∷ 7 ∷ 73 ∷ 115 ∷ 163 ∷ 211 ∷ 85 ∷ 168 ∷ 8 ∷ 186 ∷ 244 ∷ 239
      ∷ 174 ∷ 152 ∷ 124 ∷ 132 ∷ 137 ∷ 139 ∷ 109 ∷ 45 ∷ 32 ∷ 121 ∷ 152 ∷ 121 ∷ 170 ∷ 4 ∷ 237 ∷ 214
      ∷ 163 ∷ 90 ∷ 48 ∷ 88 ∷ 48 ∷ 9 ∷ 6 ∷ 3 ∷ 85 ∷ 29 ∷ 19 ∷ 4 ∷ 2 ∷ 48 ∷ 0 ∷ 48 ∷ 11 ∷ 6 ∷ 3 ∷ 85
      ∷ 29 ∷ 15 ∷ 4 ∷ 4 ∷ 3 ∷ 2 ∷ 7 ∷ 128 ∷ 48 ∷ 29 ∷ 6 ∷ 3 ∷ 85 ∷ 29 ∷ 14 ∷ 4 ∷ 22 ∷ 4 ∷ 20 ∷ 51
      ∷ 115 ∷ 121 ∷ 177 ∷ 225 ∷ 57 ∷ 146 ∷ 171 ∷ 83 ∷ 51 ∷ 218 ∷ 232 ∷ 43 ∷ 100 ∷ 86 ∷ 65 ∷ 208
      ∷ 126 ∷ 228 ∷ 104 ∷ 48 ∷ 31 ∷ 6 ∷ 3 ∷ 85 ∷ 29 ∷ 35 ∷ 4 ∷ 24 ∷ 48 ∷ 22 ∷ 128 ∷ 20 ∷ 177 ∷ 70
      ∷ 138 ∷ 174 ∷ 137 ∷ 149 ∷ 198 ∷ 129 ∷ 154 ∷ 228 ∷ 140 ∷ 118 ∷ 200 ∷ 6 ∷ 17 ∷ 87 ∷ 63 ∷ 221
      ∷ 61 ∷ 87 ∷ [];
  issuer_der =
      48 ∷ 33 ∷ 49 ∷ 31 ∷ 48 ∷ 29 ∷ 6 ∷ 3 ∷ 85 ∷ 4 ∷ 3 ∷ 12 ∷ 22 ∷ 110 ∷ 97 ∷ 110 ∷ 111 ∷ 45 ∷ 100
      ∷ 116 ∷ 108 ∷ 115 ∷ 32 ∷ 84 ∷ 101 ∷ 115 ∷ 116 ∷ 32 ∷ 82 ∷ 111 ∷ 111 ∷ 116 ∷ 32 ∷ 67 ∷ 65 ∷ [];
  subject_der =
      48 ∷ 28 ∷ 49 ∷ 26 ∷ 48 ∷ 24 ∷ 6 ∷ 3 ∷ 85 ∷ 4 ∷ 3 ∷ 12 ∷ 17 ∷ 110 ∷ 97 ∷ 110 ∷ 111 ∷ 45 ∷ 100
      ∷ 116 ∷ 108 ∷ 115 ∷ 46 ∷ 101 ∷ 120 ∷ 97 ∷ 109 ∷ 112 ∷ 108 ∷ 101 ∷ [];
  not_before = 20260804052052;
  not_after = 20281106052052;
  pubkey_qx =
      196 ∷ 67 ∷ 95 ∷ 126 ∷ 1 ∷ 123 ∷ 185 ∷ 195 ∷ 89 ∷ 191 ∷ 218 ∷ 206 ∷ 26 ∷ 104 ∷ 52 ∷ 151 ∷ 166
      ∷ 6 ∷ 145 ∷ 150 ∷ 63 ∷ 218 ∷ 91 ∷ 39 ∷ 172 ∷ 27 ∷ 50 ∷ 180 ∷ 26 ∷ 35 ∷ 125 ∷ 150 ∷ [];
  pubkey_qy =
      239 ∷ 163 ∷ 100 ∷ 162 ∷ 171 ∷ 7 ∷ 73 ∷ 115 ∷ 163 ∷ 211 ∷ 85 ∷ 168 ∷ 8 ∷ 186 ∷ 244 ∷ 239 ∷ 174
      ∷ 152 ∷ 124 ∷ 132 ∷ 137 ∷ 139 ∷ 109 ∷ 45 ∷ 32 ∷ 121 ∷ 152 ∷ 121 ∷ 170 ∷ 4 ∷ 237 ∷ 214 ∷ [];
  is_ca = false;
  sig_r =
      211 ∷ 30 ∷ 249 ∷ 42 ∷ 26 ∷ 207 ∷ 87 ∷ 127 ∷ 124 ∷ 88 ∷ 221 ∷ 148 ∷ 151 ∷ 79 ∷ 163 ∷ 182 ∷ 166
      ∷ 56 ∷ 8 ∷ 156 ∷ 82 ∷ 77 ∷ 106 ∷ 110 ∷ 3 ∷ 34 ∷ 44 ∷ 216 ∷ 179 ∷ 210 ∷ 63 ∷ 161 ∷ [];
  sig_s =
      236 ∷ 174 ∷ 163 ∷ 231 ∷ 156 ∷ 180 ∷ 67 ∷ 164 ∷ 74 ∷ 168 ∷ 220 ∷ 166 ∷ 71 ∷ 103 ∷ 99 ∷ 255 ∷ 90
      ∷ 94 ∷ 119 ∷ 93 ∷ 162 ∷ 140 ∷ 142 ∷ 168 ∷ 140 ∷ 131 ∷ 189 ∷ 6 ∷ 158 ∷ 171 ∷ 9 ∷ 89 ∷ [];
}

abbrev pub root : Cert
root = record {
  tbs_der =
      48 ∷ 130 ∷ 1 ∷ 77 ∷ 160 ∷ 3 ∷ 2 ∷ 1 ∷ 2 ∷ 2 ∷ 20 ∷ 77 ∷ 44 ∷ 107 ∷ 231 ∷ 118 ∷ 102 ∷ 23 ∷ 145
      ∷ 56 ∷ 148 ∷ 36 ∷ 8 ∷ 195 ∷ 246 ∷ 187 ∷ 229 ∷ 146 ∷ 127 ∷ 71 ∷ 193 ∷ 48 ∷ 10 ∷ 6 ∷ 8 ∷ 42
      ∷ 134 ∷ 72 ∷ 206 ∷ 61 ∷ 4 ∷ 3 ∷ 2 ∷ 48 ∷ 33 ∷ 49 ∷ 31 ∷ 48 ∷ 29 ∷ 6 ∷ 3 ∷ 85 ∷ 4 ∷ 3 ∷ 12 ∷ 22
      ∷ 110 ∷ 97 ∷ 110 ∷ 111 ∷ 45 ∷ 100 ∷ 116 ∷ 108 ∷ 115 ∷ 32 ∷ 84 ∷ 101 ∷ 115 ∷ 116 ∷ 32 ∷ 82
      ∷ 111 ∷ 111 ∷ 116 ∷ 32 ∷ 67 ∷ 65 ∷ 48 ∷ 30 ∷ 23 ∷ 13 ∷ 50 ∷ 54 ∷ 48 ∷ 56 ∷ 48 ∷ 52 ∷ 48 ∷ 53
      ∷ 50 ∷ 48 ∷ 53 ∷ 50 ∷ 90 ∷ 23 ∷ 13 ∷ 51 ∷ 54 ∷ 48 ∷ 56 ∷ 48 ∷ 49 ∷ 48 ∷ 53 ∷ 50 ∷ 48 ∷ 53 ∷ 50
      ∷ 90 ∷ 48 ∷ 33 ∷ 49 ∷ 31 ∷ 48 ∷ 29 ∷ 6 ∷ 3 ∷ 85 ∷ 4 ∷ 3 ∷ 12 ∷ 22 ∷ 110 ∷ 97 ∷ 110 ∷ 111 ∷ 45
      ∷ 100 ∷ 116 ∷ 108 ∷ 115 ∷ 32 ∷ 84 ∷ 101 ∷ 115 ∷ 116 ∷ 32 ∷ 82 ∷ 111 ∷ 111 ∷ 116 ∷ 32 ∷ 67 ∷ 65
      ∷ 48 ∷ 89 ∷ 48 ∷ 19 ∷ 6 ∷ 7 ∷ 42 ∷ 134 ∷ 72 ∷ 206 ∷ 61 ∷ 2 ∷ 1 ∷ 6 ∷ 8 ∷ 42 ∷ 134 ∷ 72 ∷ 206
      ∷ 61 ∷ 3 ∷ 1 ∷ 7 ∷ 3 ∷ 66 ∷ 0 ∷ 4 ∷ 255 ∷ 93 ∷ 223 ∷ 75 ∷ 123 ∷ 188 ∷ 217 ∷ 65 ∷ 81 ∷ 72 ∷ 126
      ∷ 38 ∷ 209 ∷ 154 ∷ 211 ∷ 18 ∷ 192 ∷ 2 ∷ 168 ∷ 22 ∷ 4 ∷ 5 ∷ 168 ∷ 32 ∷ 212 ∷ 7 ∷ 218 ∷ 215
      ∷ 133 ∷ 129 ∷ 62 ∷ 116 ∷ 26 ∷ 47 ∷ 173 ∷ 121 ∷ 73 ∷ 112 ∷ 131 ∷ 175 ∷ 14 ∷ 151 ∷ 146 ∷ 78
      ∷ 143 ∷ 239 ∷ 107 ∷ 195 ∷ 148 ∷ 166 ∷ 162 ∷ 114 ∷ 111 ∷ 38 ∷ 84 ∷ 83 ∷ 123 ∷ 229 ∷ 233 ∷ 192
      ∷ 99 ∷ 27 ∷ 9 ∷ 175 ∷ 163 ∷ 99 ∷ 48 ∷ 97 ∷ 48 ∷ 29 ∷ 6 ∷ 3 ∷ 85 ∷ 29 ∷ 14 ∷ 4 ∷ 22 ∷ 4 ∷ 20
      ∷ 177 ∷ 70 ∷ 138 ∷ 174 ∷ 137 ∷ 149 ∷ 198 ∷ 129 ∷ 154 ∷ 228 ∷ 140 ∷ 118 ∷ 200 ∷ 6 ∷ 17 ∷ 87
      ∷ 63 ∷ 221 ∷ 61 ∷ 87 ∷ 48 ∷ 31 ∷ 6 ∷ 3 ∷ 85 ∷ 29 ∷ 35 ∷ 4 ∷ 24 ∷ 48 ∷ 22 ∷ 128 ∷ 20 ∷ 177 ∷ 70
      ∷ 138 ∷ 174 ∷ 137 ∷ 149 ∷ 198 ∷ 129 ∷ 154 ∷ 228 ∷ 140 ∷ 118 ∷ 200 ∷ 6 ∷ 17 ∷ 87 ∷ 63 ∷ 221
      ∷ 61 ∷ 87 ∷ 48 ∷ 15 ∷ 6 ∷ 3 ∷ 85 ∷ 29 ∷ 19 ∷ 1 ∷ 1 ∷ 255 ∷ 4 ∷ 5 ∷ 48 ∷ 3 ∷ 1 ∷ 1 ∷ 255 ∷ 48
      ∷ 14 ∷ 6 ∷ 3 ∷ 85 ∷ 29 ∷ 15 ∷ 1 ∷ 1 ∷ 255 ∷ 4 ∷ 4 ∷ 3 ∷ 2 ∷ 1 ∷ 6 ∷ [];
  issuer_der =
      48 ∷ 33 ∷ 49 ∷ 31 ∷ 48 ∷ 29 ∷ 6 ∷ 3 ∷ 85 ∷ 4 ∷ 3 ∷ 12 ∷ 22 ∷ 110 ∷ 97 ∷ 110 ∷ 111 ∷ 45 ∷ 100
      ∷ 116 ∷ 108 ∷ 115 ∷ 32 ∷ 84 ∷ 101 ∷ 115 ∷ 116 ∷ 32 ∷ 82 ∷ 111 ∷ 111 ∷ 116 ∷ 32 ∷ 67 ∷ 65 ∷ [];
  subject_der =
      48 ∷ 33 ∷ 49 ∷ 31 ∷ 48 ∷ 29 ∷ 6 ∷ 3 ∷ 85 ∷ 4 ∷ 3 ∷ 12 ∷ 22 ∷ 110 ∷ 97 ∷ 110 ∷ 111 ∷ 45 ∷ 100
      ∷ 116 ∷ 108 ∷ 115 ∷ 32 ∷ 84 ∷ 101 ∷ 115 ∷ 116 ∷ 32 ∷ 82 ∷ 111 ∷ 111 ∷ 116 ∷ 32 ∷ 67 ∷ 65 ∷ [];
  not_before = 20260804052052;
  not_after = 20360801052052;
  pubkey_qx =
      255 ∷ 93 ∷ 223 ∷ 75 ∷ 123 ∷ 188 ∷ 217 ∷ 65 ∷ 81 ∷ 72 ∷ 126 ∷ 38 ∷ 209 ∷ 154 ∷ 211 ∷ 18 ∷ 192
      ∷ 2 ∷ 168 ∷ 22 ∷ 4 ∷ 5 ∷ 168 ∷ 32 ∷ 212 ∷ 7 ∷ 218 ∷ 215 ∷ 133 ∷ 129 ∷ 62 ∷ 116 ∷ [];
  pubkey_qy =
      26 ∷ 47 ∷ 173 ∷ 121 ∷ 73 ∷ 112 ∷ 131 ∷ 175 ∷ 14 ∷ 151 ∷ 146 ∷ 78 ∷ 143 ∷ 239 ∷ 107 ∷ 195 ∷ 148
      ∷ 166 ∷ 162 ∷ 114 ∷ 111 ∷ 38 ∷ 84 ∷ 83 ∷ 123 ∷ 229 ∷ 233 ∷ 192 ∷ 99 ∷ 27 ∷ 9 ∷ 175 ∷ [];
  is_ca = true;
  sig_r =
      43 ∷ 134 ∷ 245 ∷ 0 ∷ 69 ∷ 21 ∷ 27 ∷ 219 ∷ 119 ∷ 210 ∷ 163 ∷ 8 ∷ 120 ∷ 38 ∷ 175 ∷ 138 ∷ 96
      ∷ 238 ∷ 96 ∷ 107 ∷ 212 ∷ 252 ∷ 210 ∷ 105 ∷ 194 ∷ 148 ∷ 152 ∷ 234 ∷ 0 ∷ 9 ∷ 2 ∷ 232 ∷ [];
  sig_s =
      48 ∷ 143 ∷ 140 ∷ 192 ∷ 7 ∷ 84 ∷ 48 ∷ 57 ∷ 193 ∷ 80 ∷ 16 ∷ 251 ∷ 250 ∷ 68 ∷ 187 ∷ 136 ∷ 225
      ∷ 16 ∷ 168 ∷ 170 ∷ 156 ∷ 230 ∷ 92 ∷ 181 ∷ 193 ∷ 116 ∷ 118 ∷ 102 ∷ 160 ∷ 188 ∷ 172 ∷ 27 ∷ [];
}

pub leaf_parses : x509_parse (λ qx qy. true) leaf_der ≡ ok leaf
unfolding x509_parse Parse.parse_tbs Parse.check_algorithm Parse.signature_value Parse.validity
    Parse.public_key Parse.optional_fields Parse.serial_number X509.parse_time X509.ca_flag
    X509.basic_constraints X509.scan_loop X509.scan_extensions Asn1.reader_next Asn1.parse_tlv
    byte_at Asn1.long_length Asn1.length_bytes Asn1.read_bitstring_bytes Asn1.read_signature
    Asn1.read_uint_fixed
leaf_parses = refl

all_bytes : Bytes → Bool
all_bytes [] = true
all_bytes (x ∷ xs) = ltb x 256 && all_bytes xs

all_bytes-IsBytes : (xs : Bytes) → all_bytes xs ≡ true → IsBytes xs
unfolding all_bytes
all_bytes-IsBytes [] h = tt
all_bytes-IsBytes (x ∷ xs) h = elim (Bool-cases (ltb x 256)) [
  | inl below ↦ (ground (arith, below), all_bytes-IsBytes xs (ground (arith, h, below)))
  | inr above ↦ absurd (ground (arith, h, above))
]

pub leaf_der-IsBytes : IsBytes leaf_der
unfolding all_bytes
leaf_der-IsBytes = all_bytes-IsBytes leaf_der refl
