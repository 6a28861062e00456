-- ===== src/Network/NetConn.antt =====
-- source/Network/NetConn.h: the state of a connection and the calls that it makes on its socket.
-- The socket is boost's, so the model keeps a record of the calls that reach it.
use tzrpc.Prelude.{ℕ, Bool, true, false, List, [], ◌∷◌, ◌++◌, if◌then◌else◌}
use tzrpc.Core.Endian.{Bytes}
use tzrpc.Core.Message.{Header, empty_header}
use tzrpc.Core.Buffer.{Buffer, empty_buffer}

pub data ConnStat : Type 0 where
  working pending error closed : ConnStat

pub data ShutdownType : Type 0 where
  send recv both : ShutdownType

pub data SendStatus : Type 0 where
  sending done : SendStatus

-- The values of boost::system::error_code that the program tells apart; success is `none` in the
-- model's `Option ErrorCode`.
pub data ErrorCode : Type 0 where
  connection_reset timed_out bad_descriptor eof operation_aborted : ErrorCode
  other : ℕ → ErrorCode

-- A read in progress: the handler that it will call, and the least number of bytes that it waits for.
pub data ReadOp : Type 0 where
  head : ℕ → ReadOp
  body : ℕ → ReadOp

pub data SocketCall : Type 0 where
  shutdown : ShutdownType → SocketCall
  close cancel : SocketCall

-- What has been asked of a socket: the calls on it in order, the reads and writes in progress, and
-- every byte that was handed to `async_write`, in order.
pub record Socket : Type 0 where
  pub calls : List SocketCall
  pub reads : List ReadOp
  pub writes : List Bytes
  pub written : Bytes

abbrev pub fresh_socket : Socket
fresh_socket = record { calls = []; reads = []; writes = []; written = [] }

abbrev pub call : Socket → SocketCall → Socket
call s c = record s { calls = s.calls ++ (c ∷ []) }

abbrev pub async_read : Socket → ReadOp → Socket
async_read s op = record s { reads = s.reads ++ (op ∷ []) }

abbrev pub async_write : Socket → Bytes → Socket
async_write s bs = record s { writes = s.writes ++ (bs ∷ []); written = s.written ++ bs }

-- A blocking write hands its bytes over and leaves nothing in progress.
abbrev pub write : Socket → Bytes → Socket
write s bs = record s { written = s.written ++ bs }

pub record NetConn : Type 0 where
  pub conn_stat : ConnStat
  pub socket : Socket

abbrev pub is_closed : ConnStat → Bool
is_closed closed = true
is_closed working = false
is_closed pending = false
is_closed error = false

abbrev pub is_working : ConnStat → Bool
is_working working = true
is_working pending = false
is_working error = false
is_working closed = false

unfoldable pub sock_shutdown_and_close : NetConn → ShutdownType → NetConn
sock_shutdown_and_close c s =
    if is_closed c.conn_stat
    then c
    else record { conn_stat = closed; socket = call (call c.socket (shutdown s)) close }

unfoldable pub sock_cancel : NetConn → NetConn
sock_cancel c = record c { socket = call c.socket cancel }

unfoldable pub sock_close : NetConn → NetConn
sock_close c =
    if is_closed c.conn_stat then c else record { conn_stat = closed; socket = call c.socket close }

unfoldable pub set_conn_stat : NetConn → ConnStat → NetConn
set_conn_stat c s = record c { conn_stat = s }

-- kFixedIoBufferSize
abbrev pub io_buffer_size : ℕ
io_buffer_size = 2048

-- `io_block` is what was last put into the fixed block of that size.
pub record IoBound : Type 0 where
  pub io_block : Bytes
  pub header : Header
  pub buffer : Buffer

abbrev pub empty_bound : IoBound
empty_bound = record { io_block = []; header = empty_header; buffer = empty_buffer }
