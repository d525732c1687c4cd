-- ===== src/Protocol/Names.antt =====
-- internal/protocol/protocol.go: the names of the message types, for the log.
use xbslink_ng.Base.{ℕ, List, ◌++◌, ◌==◌, if◌then◌else◌, codes, hex_padded, hex_digit}
use xbslink_ng.Protocol.{msg_frame, msg_hello, msg_hello_ack, msg_ping, msg_pong, msg_bye}

unfoldable pub message_type_name : ℕ → List ℕ
message_type_name t =
    if t == msg_frame
    then codes "FRAME"
    else if t == msg_hello
    then codes "HELLO"
    else if t == msg_hello_ack
    then codes "HELLO_ACK"
    else if t == msg_ping
    then codes "PING"
    else if t == msg_pong
    then codes "PONG"
    else if t == msg_bye
    then codes "BYE"
    else codes "UNKNOWN(0x" ++ hex_padded hex_digit 2 t ++ codes ")"
