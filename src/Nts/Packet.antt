-- ===== src/Nts/Packet.antt =====
-- net/nts/nts.go: the packet of extension fields, and the packets that client and server start
-- from. The extension headers that the fields embed are written and read with the fields, and are
-- not kept.
use scion_time.Base.{List, [], length, replicate, ℕ, ◌-◌, ◌∷◌}
use scion_time.Base.Run.{Run, err, ok, panic}

abbrev pub max_packet_len : ℕ
max_packet_len = 1024

abbrev pub num_stored_cookies : ℕ
num_stored_cookies = 8

abbrev pub ntp_packet_len : ℕ
ntp_packet_len = 48

abbrev pub ext_unique_identifier : ℕ
ext_unique_identifier = 0x104

abbrev pub ext_cookie : ℕ
ext_cookie = 0x204

abbrev pub ext_cookie_placeholder : ℕ
ext_cookie_placeholder = 0x304

abbrev pub ext_authenticator : ℕ
ext_authenticator = 0x404

pub data NtsError : Type 0 where
  no_authenticator no_cookies no_unique_id short_unique_id unexpected_response_id : NtsError
  -- of miscreant.NewAEAD, Open and rand.Read
  bad_key not_authentic no_random : NtsError

pub record Authenticator : Type 0 where
  pub nonce : List ℕ
  pub cipher_text : List ℕ
  pub key : List ℕ
  pub plain_text : List ℕ
  pub pos : ℕ

pub record Packet : Type 0 where
  pub unique_id : List ℕ
  pub cookies : List (List ℕ)
  pub cookie_placeholders : List (List ℕ)
  pub auth : Authenticator

abbrev pub no_auth : Authenticator
no_auth = record { nonce = []; cipher_text = []; key = []; plain_text = []; pos = 0 }

abbrev pub empty_packet : Packet
empty_packet = record { unique_id = []; cookies = []; cookie_placeholders = []; auth = no_auth }

-- FirstCookie
unfoldable pub first_cookie : Packet → Run NtsError (List ℕ)
first_cookie p = elim p.cookies [ [] ↦ err no_cookies | c ∷ r ↦ ok c ]

-- NewRequestPacket, with the client's stock of cookies, its key, and the 32 random bytes of newID.
-- The cookie that is spent and the placeholders make up for what is missing from eight cookies. It
-- panics if there is no cookie.
unfoldable pub new_request_packet : List (List ℕ) → List ℕ → List ℕ → Run NtsError Packet
new_request_packet [] c2s_key id = panic
new_request_packet (cookie ∷ stock) c2s_key id = ok (record {
  unique_id = id;
  cookies = cookie ∷ [];
  cookie_placeholders =
      replicate (num_stored_cookies - length (cookie ∷ stock)) (replicate (length cookie) 0);
  auth = record no_auth { key = c2s_key };
})
