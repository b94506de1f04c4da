-- ===== src/Tcp/Handshake.antt =====
-- The handshake of bridge/common/transport_tcp.c, and the ports of `transport_tcp_create`.
use qemu_vcs.Base.{
  ℕ, ◌+◌, ◌*◌, ◌≡◌, refl, Option, none, some, List, ◌++◌, Bool, true, false, take, drop, ltb, leb,
  ◌==◌, ◌!=◌, ◌||◌, ◌&&◌, if◌then◌else◌, not,
}
use qemu_vcs.Tcp.Codec.{le32, from_le, read}
use qemu_vcs.Tcp.Message.{Stream, header_bytes, frame_bytes, parse_header}
use qemu_vcs.Tcp.TypeOf

-- `TCP_HANDSHAKE_MAGIC`, `TCP_HANDSHAKE_VERSION`, `TCP_HANDSHAKE_V1` and `_V2`
abbrev pub magic : ℕ
magic = 0x434F5349

abbrev pub current_version : ℕ
current_version = 2

abbrev pub v1 : ℕ
v1 = 1

abbrev pub v2 : ℕ
v2 = 2

-- The fields of `transport_tcp_priv_t` that the handshake uses: `aux` and `aux_listen` say whether
-- `aux_fd` and `aux_listen_fd` are open.
pub record Priv : Type 0 where
  pub aux : Bool
  pub aux_listen : Bool
  pub negotiated_version : ℕ
  pub peer_is_ready : Bool

-- `tcp_handshake_t`, without its padding.
pub record Hello : Type 0 where
  pub magic_word : ℕ
  pub version : ℕ
  pub conn_count : ℕ

unfoldable pub hello_bytes : Hello → List ℕ
hello_bytes h = le32 h.magic_word ++ (le32 h.version ++ (le32 h.conn_count ++ le32 0))

abbrev pub connections : Bool → ℕ
connections aux = if aux then 3 else 2

-- What both sides do with the other's message: 8 bytes are version 1, which has 2 connections, and
-- 16 bytes are version 2.
unfoldable pub recv_hello : Stream → Option Hello
recv_hello s = elim (read 8 s) [
  | none ↦ none
  | some (bs, rest) ↦
      let header = parse_header bs in
      let old = elim (read 8 rest) as (λ _. Option Hello) [
        | none ↦ none
        | some (b, left) ↦ some (record {
          magic_word = from_le (take 4 b);
          version = from_le (drop 4 b);
          conn_count = 2;
        })
      ] in
      let new = elim (read 16 rest) as (λ _. Option Hello) [
        | none ↦ none
        | some (b, left) ↦ some (record {
          magic_word = from_le (take 4 b);
          version = from_le (take 4 (drop 4 b));
          conn_count = from_le (take 4 (drop 8 b));
        })
      ] in
      if header.msg_type != TypeOf.handshake
      then none
      else (if header.payload_len == 8
          then old
          else (if header.payload_len == 16 then new else none))
]

-- The first half of `tcp_do_handshake_server`
unfoldable pub server_hello : Priv → Stream
unfolding frame_bytes hello_bytes
server_hello p = frame_bytes TypeOf.handshake (
    hello_bytes
      (record { magic_word = magic; version = current_version; conn_count = connections p.aux }))

-- Its second half, on the client's answer.
unfoldable pub server_finish : Priv → Stream → Option Priv
server_finish p s = elim (recv_hello s) [
  | none ↦ none
  | some ack ↦
      let close_aux = ((ltb ack.version v2) || (ltb ack.conn_count 3)) && p.aux in
      if ack.magic_word != magic
      then none
      else some (record {
        aux = if close_aux then false else p.aux;
        aux_listen = if close_aux then false else p.aux_listen;
        negotiated_version = ack.version;
        peer_is_ready = true;
      })
]

-- The answer of `tcp_do_handshake_client`, and its state afterwards.
unfoldable pub client_handshake : Priv → Stream → Option (Stream × Priv)
unfolding frame_bytes hello_bytes
client_handshake p s = elim (recv_hello s) [
  | none ↦ none
  | some hs ↦
      let agreed = if ltb hs.version current_version then hs.version else current_version in
      let keep = p.aux && (leb v2 agreed && leb 3 hs.conn_count) in
      let close_aux = ((ltb agreed v2) || (ltb hs.conn_count 3)) && p.aux in
      if hs.magic_word != magic
      then none
      else some (
        frame_bytes TypeOf.handshake (
            hello_bytes
              (record { magic_word = magic; version = agreed; conn_count = connections keep })),
        record p {
          aux = if close_aux then false else p.aux;
          negotiated_version = agreed;
          peer_is_ready = true;
        },
      )
]

-- The two programs, each on the bytes that the other has sent.
unfoldable pub handshake : Priv → Priv → Option (Priv × Priv)
unfolding server_hello
handshake server client = elim (client_handshake client (server_hello server)) [
  | none ↦ none
  | some (ack, client') ↦ elim (server_finish server ack) [
    | none ↦ none
    | some server' ↦ some (server', client')
  ]
]

-- `port_base` and the three ports in `transport_tcp_create`
abbrev pub default_port_base : ℕ
default_port_base = 9100

unfoldable pub ports : ℕ → ℕ → ℕ × (ℕ × ℕ)
ports port_base instance_id =
    let base = if ltb 0 port_base then port_base else default_port_base in
    (base + instance_id * 3, (base + instance_id * 3 + 1, base + instance_id * 3 + 2))

abbrev priv : Bool → Bool → ℕ → Bool → Priv
priv aux listen version ready = record {
  aux = aux;
  aux_listen = listen;
  negotiated_version = version;
  peer_is_ready = ready;
}

-- The listening socket of the auxiliary connection is closed with it.
abbrev pub keeps_listening : Bool → Bool → Bool → Bool
keeps_listening mine theirs listen = if mine && not theirs then false else listen

agree :
    (a b l l' r r' : Bool) (v v' : ℕ)
    → handshake (priv a l v r) (priv b l' v' r')
      ≡ some (priv (a && b) (keeps_listening a b l) v2 true, priv (a && b) l' v2 true)
unfolding handshake client_handshake server_finish server_hello recv_hello frame_bytes hello_bytes
    header_bytes le32 from_le read
agree true true l l' r r' v v' = refl
agree true false l l' r r' v v' = refl
agree false true l l' r r' v v' = refl
agree false false l l' r r' v v' = refl

-- Both sides end with version 2 and ready, and each keeps its auxiliary connection exactly when
-- both had one: an auxiliary connection that only one side has is given up by that side.
pub handshake_lem :
    (server client : Priv)
    → handshake server client
      ≡ some (
        record server {
          aux = server.aux && client.aux;
          aux_listen = keeps_listening server.aux client.aux server.aux_listen;
          negotiated_version = v2;
          peer_is_ready = true;
        },
        record client {
          aux = server.aux && client.aux;
          negotiated_version = v2;
          peer_is_ready = true;
        },
      )
handshake_lem server client =
    agree server.aux client.aux server.aux_listen client.aux_listen server.peer_is_ready
      client.peer_is_ready server.negotiated_version client.negotiated_version

-- The answer of a client of version 1: 8 bytes, without a count of connections.
abbrev pub v1_answer : ℕ → Stream
v1_answer version = frame_bytes TypeOf.handshake (le32 magic ++ le32 version)

two_connections :
    (a l : Bool) (v : ℕ) (r : Bool)
    → server_finish (priv a l v r) (v1_answer v1)
      ≡ some (priv false (keeps_listening a false l) v1 true)
unfolding server_finish recv_hello frame_bytes header_bytes le32 from_le read
two_connections true l v r = refl
two_connections false l v r = refl

-- With a client of version 1, whose answer has no count of connections, the server ends with
-- version 1 and ready, without an auxiliary connection.
pub server_finish-v1 :
    (p : Priv)
    → server_finish p (v1_answer v1)
      ≡ some (record {
        aux = false;
        aux_listen = keeps_listening p.aux false p.aux_listen;
        negotiated_version = v1;
        peer_is_ready = true;
      })
server_finish-v1 p = two_connections p.aux p.aux_listen p.negotiated_version p.peer_is_ready
