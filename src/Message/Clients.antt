-- ===== src/Message/Clients.antt =====
-- MsgClients of VCamUtils/src/message.cpp: the request for the processes that are connected, and its
-- answer. A client type is the 32-bit pattern of the enum.
use akvirtualcamera.Base.{
  ℕ, zero, suc, ◌+◌, ◌*◌, ◌^◌, ◌<◌, ◌≡◌, ◌≢◌, refl, ◌||◌, not, List, [], ◌∷◌, ◌++◌, Option, none,
  some, ◌>>=◌, arith, Bytes, ltb, ◌==◌, if◌then◌else◌, length, length-append, append_assoc,
  append-nil, drop, take, take-append, ap, sym, ◌∙◌,
}
use akvirtualcamera.Base.Buffer.{
  le_bytes, le_value, read_bytes, read_uint, length-le_bytes, read_uint-at, read_bytes-at,
  le_value-le_bytes, read_uint-within, read_bytes-past,
}
use akvirtualcamera.Message.{Message, msg_clients}

pub record MsgClients : Type 0 where
  pub query_id : ℕ
  pub client_type : ℕ
  pub clients : List ℕ

abbrev pub client_type_any : ℕ
client_type_any = 0

abbrev pub client_type_vcams : ℕ
client_type_vcams = 1

-- The clients as an array of uint64_t.
unfoldable pub write_clients : List ℕ → Bytes
unfolding le_bytes
write_clients [] = []
write_clients (c ∷ cs) = le_bytes 8 c ++ write_clients cs

-- `n` elements of an array of uint64_t.
unfoldable pub read_clients : ℕ → Bytes → List ℕ
read_clients zero buf = []
read_clients (suc n) buf = le_value (take 8 buf) ∷ read_clients n (drop 8 buf)

unfoldable pub to_message : MsgClients → Message
unfolding write_clients
to_message c = record {
  id = msg_clients;
  query_id = c.query_id;
  data_bytes =
      le_bytes 4 c.client_type ++ (le_bytes 8 (length c.clients) ++ write_clients c.clients);
}

abbrev pub no_clients : ℕ → MsgClients
no_clients query_id = record { query_id = query_id; client_type = client_type_any; clients = [] }

-- The bytes that the constructor expects: it copies no byte of the number of clients, which stays 0,
-- and adds sizeof(sizeof(uint64_t) * clientsSize), the size of a size_t, for the clients.
abbrev expected_size : ℕ
expected_size = 4 + (8 + 8)

unfoldable pub from_message : Message → Option MsgClients
unfolding read_clients
from_message m =
    if not (m.id == msg_clients) || not (length m.data_bytes == expected_size)
    then some (no_clients m.query_id)
    else do
      client_type ← read_uint m.data_bytes 0 4
      n ← read_uint m.data_bytes 4 8
      bytes ← if ltb 0 n then read_bytes m.data_bytes 12 (8 * n) else some []
      some (record {
        query_id = m.query_id;
        client_type = client_type;
        clients = read_clients n bytes;
      })

length-write_clients : (cs : List ℕ) → length (write_clients cs) ≡ 8 * length cs
unfolding write_clients
length-write_clients [] = omega arith
length-write_clients (c ∷ cs) = omega (
  arith,
  length-append (le_bytes 8 c) (write_clients cs),
  length-le_bytes 8 c,
  length-write_clients cs,
)

length_total :
    (t : ℕ) (cs : List ℕ)
    → length (le_bytes 4 t ++ (le_bytes 8 (length cs) ++ write_clients cs)) ≡ 12 + 8 * length cs
length_total t cs = omega (arith, length-append {0}, length-le_bytes, length-write_clients cs)

one_client : ℕ → ℕ → Bytes
one_client t client = le_bytes 4 t ++ (le_bytes 8 1 ++ (le_bytes 8 client ++ []))

module _ (t client : ℕ) (t_fits : t < 2 ^ 32) (client_fits : client < 2 ^ 64) where
  read_type : read_uint (one_client t client) 0 4 ≡ some t
  unfolding one_client
  read_type = read_uint-at [] _ t 4 refl refl t_fits

  read_count : read_uint (one_client t client) 4 8 ≡ some 1
  unfolding one_client
  read_count = read_uint-at (le_bytes 4 t) _ 1 8 refl (omega (arith, length-le_bytes)) (omega arith)

  read_array : read_bytes (one_client t client) 12 8 ≡ some (le_bytes 8 client)
  unfolding one_client
  read_array =
      read_bytes-at (le_bytes 4 t ++ le_bytes 8 1) (le_bytes 8 client) [] (simp append_assoc)
        (omega (arith, length-append {0}, length-le_bytes)) (omega (arith, length-le_bytes))

  read_one : read_clients 1 (le_bytes 8 client) ≡ client ∷ []
  unfolding read_clients
  read_one =
      ap (λ (x : ℕ). x ∷ [])
        (ap le_value (
            sym (ap (take 8) (append-nil (le_bytes 8 client)))
            ∙ take-append 8 (le_bytes 8 client) [] (length-le_bytes 8 client))
          ∙ le_value-le_bytes 8 client client_fits)

-- An answer with exactly one client, of 64 bits, and a type of 32 bits is decoded to what was sent.
pub clients_round_trip :
    (query_id client_type client : ℕ)
    → client_type < 2 ^ 32
    → client < 2 ^ 64
    → let c : MsgClients = record {
      query_id = query_id;
      client_type = client_type;
      clients = client ∷ [];
    } in
      from_message (to_message c) ≡ some c
unfolding from_message to_message write_clients one_client
clients_round_trip query_id client_type client ht hc = ground (
  arith,
  length_total client_type (client ∷ []),
  read_type client_type client ht hc,
  read_count client_type client ht hc,
  read_array client_type client ht hc,
  read_one client_type client ht hc,
)

-- With no client or more than one, the decoded message has no client and the type "any", whatever
-- was sent.
pub clients_lossy :
    (c : MsgClients)
    → length c.clients ≢ 1
    → from_message (to_message c) ≡ some (no_clients c.query_id)
unfolding from_message to_message
clients_lossy c h = ground (arith, length_total c.client_type c.clients)

-- A message of the expected length that claims more than one client is read past its end.
pub clients_overread :
    (m : Message) (n : ℕ)
    → m.id ≡ msg_clients
    → length m.data_bytes ≡ 20
    → read_uint m.data_bytes 4 8 ≡ some n
    → 1 < n
    → from_message m ≡ none
unfolding from_message
clients_overread m n i l e h =
    let (t, et) = read_uint-within m.data_bytes 0 4 (omega arith) in
    ground (arith, et, read_bytes-past m.data_bytes 12 (8 * n) (omega arith))
