-- ===== src/Client.antt =====
-- src/comm/client.c: the name of a client, its connection to a server, and a message to a peer. Sockets and the
-- lists of peers and of messages are parameters.
use hackrf.Prelude.{
  ℕ, ◌≡◌, ◌⊎◌, true, false, Bool, List, [], ◌∷◌, length, ltb, if◌then◌else◌, arith,
}
use hackrf.Prelude.Int.{ℤ, pos, negsuc, is_zero, lt_nat}

-- `no name`
abbrev no_name : List ℕ
no_name = b'n' ∷ b'o' ∷ b' ' ∷ b'n' ∷ b'a' ∷ b'm' ∷ b'e' ∷ []

-- What is copied to `client_name`.
unfoldable get_client_name : List ℕ → List ℕ
get_client_name ip = if ltb 5 (length ip) then ip else no_name

data NetCall : Type 0 where
  open_socket : NetCall
  socket_name : ℤ → NetCall
  connect_socket : NetCall
  close_socket : ℤ → NetCall
  add_peer : NetCall

-- `socket`, `getsockname`, `connect`, and `add_to_send_buff` for a message of a size. The last two work on
-- the peer, whose server address the code never sets.
record Net : Type 0 where
  new_socket : ℤ
  name_of : ℤ → ℤ
  connection : ℤ
  add_to_send_buff : ℕ → ℤ

-- The result of `create_client`, with the calls that it makes, the newest first. It uses neither of its
-- parameters but to print them.
unfoldable create_client : Net → ℤ × List NetCall
create_client n =
    let sock = n.new_socket in
    if lt_nat sock 0
    then (negsuc 0, NetCall.open_socket ∷ [])
    else if lt_nat (n.name_of sock) 0
    then (negsuc 0, NetCall.close_socket sock ∷ NetCall.socket_name sock ∷ NetCall.open_socket ∷ [])
    else if is_zero n.connection
    then (
      pos 0,
      NetCall.add_peer
          ∷ NetCall.connect_socket
          ∷ NetCall.socket_name sock
          ∷ NetCall.open_socket
          ∷ [],
    )
    else (negsuc 0, NetCall.connect_socket ∷ NetCall.socket_name sock ∷ NetCall.open_socket ∷ [])

-- `sendMessageToPeer`; `sz` is the size of the message.
unfoldable send_message_to_peer : Net → ℕ → ℤ
send_message_to_peer n sz = if lt_nat (n.add_to_send_buff sz) 0 then negsuc 0 else pos 0

-- The sockets that are open after some calls.
abbrev open_sockets : ℤ → List NetCall → ℕ
open_sockets s [] = 0
open_sockets s (NetCall.open_socket ∷ cs) = if lt_nat s 0 then open_sockets s cs else 1
open_sockets s (NetCall.close_socket t ∷ cs) = 0
open_sockets s (c ∷ cs) = open_sockets s cs

abbrev adds_peer : List NetCall → Bool
adds_peer [] = false
adds_peer (NetCall.add_peer ∷ cs) = true
adds_peer (c ∷ cs) = adds_peer cs

-- Connecting succeeds exactly where a peer is added. Where it fails, the socket stays open exactly if it was
-- the connection that failed.
create_client_lem :
    (n : Net)
    → let r = create_client n in
      ((r.0 ≡ pos 0) × (adds_peer r.1 ≡ true) × (open_sockets n.new_socket r.1 ≡ 1))
      ⊎ ((r.0 ≡ negsuc 0)
          × (adds_peer r.1 ≡ false)
          × (open_sockets n.new_socket r.1 ≡ (
              if lt_nat n.new_socket 0
              then 0
              else if lt_nat (n.name_of n.new_socket) 0
              then 0
              else 1)))
unfolding create_client
create_client_lem n = ground arith
