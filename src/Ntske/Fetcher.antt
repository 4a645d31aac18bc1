-- ===== src/Ntske/Fetcher.antt =====
-- net/ntske/fetcher.go over TCP: the stock of cookies of an NTS client. What a TLS connection brings is
-- the argument `Connected`.
pub mod Stock
use scion_time.Ntske.Records.{
  Data, Record, next_proto, algorithm, end_of_message, read_data, read_step, continue, done, failed,
  ReadError, cookie, port, server,
}
use scion_time.Base.{
  List, Option, [], if◌then◌else◌, length, none, not, some, suc, zero, ℕ, ◌++◌, ◌==◌, ◌∷◌,
}
use scion_time.Base.Run.{Run, err, ok, out_of_fuel, panic}
use scion_time.Ntske.Sealed.{aes_siv_cmac_256}

pub data FetchError : Type 0 where
  -- of dialTLS, of ExportKeys, and of the fetcher itself
  not_connected no_keys no_cookies unknown_algo : FetchError
  not_read : ReadError → FetchError

-- The address and port of the server that dialTLS starts from, the bytes that the server sends, and
-- the two results of ExportKeyingMaterial.
pub record Connected : Type 0 where
  pub address : List ℕ
  pub stream : List ℕ
  pub exported_s2c : Option (List ℕ)
  pub exported_c2s : Option (List ℕ)

abbrev pub empty_data : Data
empty_data = record { c2s_key = []; s2c_key = []; server = []; port = 0; cookie = []; algo = 0 }

-- ntp.ServerPortIP
abbrev pub server_port_ip : ℕ
server_port_ip = 123

-- What dialTLS returns.
unfoldable pub dialed : Connected → Data
dialed c = record empty_data { server = c.address; port = server_port_ip }

-- The end of exchangeKeys.
unfoldable pub checked_data : Data → Data × Option FetchError
checked_data d =
    if length d.cookie == 0
    then (d, some no_cookies)
    else if not (d.algo == aes_siv_cmac_256)
    then (d, some unknown_algo)
    else (d, none)

-- The end of FetchData, with the data's cookies; without one, `f.data.Cookie[1:]` panics.
unfoldable pub take_cookie : Data → List (List ℕ) → Data × Run FetchError Data
take_cookie g [] = (g, panic)
take_cookie g (c ∷ rest) = (record g { cookie = rest }, ok g)

unfoldable pub or_failed : Data × Option FetchError → Data × Run FetchError Data
or_failed (g, some e) = (g, err e)
or_failed (g, none) = take_cookie g g.cookie

module _ (short : ℕ → List ℕ → ℕ) where
  -- What ReadData leaves in the data, also where it fails.
  unfoldable pub data_left : ℕ → Data → List ℕ → Data
  data_left zero d b = d
  data_left (suc fuel) d b = elim (read_step short d b) [
    | continue e r ↦ data_left fuel e r
    | done e ↦ e
    | failed e ↦ d
  ]

  -- exchangeKeys, without QUIC: the data afterwards, and the error if there is one.
  unfoldable pub exchange_keys : Option Connected → Data × Option FetchError
  exchange_keys none = (empty_data, some not_connected)
  exchange_keys (some c) =
      let fuel = suc (length c.stream) in
      let left = data_left fuel (dialed c) c.stream in
      elim (read_data short fuel (dialed c) c.stream) [
        | ok d ↦ elim c.exported_s2c [
          | none ↦ (d, some no_keys)
          | some s2c ↦ elim c.exported_c2s [
            | none ↦ (record d { s2c_key = s2c }, some no_keys)
            | some c2s ↦ checked_data (record d { s2c_key = s2c; c2s_key = c2s })
          ]
        ]
        | err e ↦ (left, some (not_read e))
        | panic ↦ (left, none)
        | out_of_fuel ↦ (left, none)
      ]

  -- FetchData: the fetcher's data afterwards, and the result.
  unfoldable pub fetch_data : Option Connected → Data → Data × Run FetchError Data
  fetch_data c f = or_failed (if length f.cookie == 0 then exchange_keys c else (f, none))

-- StoreCookie
unfoldable pub store_cookie : Data → List ℕ → Data
store_cookie f c = record f { cookie = f.cookie ++ (c ∷ []) }
