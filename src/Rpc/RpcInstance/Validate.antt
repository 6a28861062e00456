-- ===== src/Rpc/RpcInstance/Validate.antt =====
-- Which requests source/RPC/RpcInstance.cpp takes.
use tzrpc.Prelude.{
  ℕ, ◌+◌, ◌-◌, ◌%◌, ◌^◌, ◌<◌, ◌≡◌, ◌≢◌, ap, ◌∙◌, true, false, [], ◌++◌, arith, length, take, drop,
  drop-all, take-all,
}
use tzrpc.Core.Endian.{Endian, Bytes}
use tzrpc.Core.Buffer.{get_length, consume, of_string}
use tzrpc.Core.Buffer.Queue.{consume-take, consume-drop}
use tzrpc.Rpc.Request.{
  RpcRequestMessage, request_header_size, rpc_header_magic, rpc_header_version, from_net_endian,
  load_header, net_str,
}
use tzrpc.Rpc.Request.Codec.{IsHeader, wire_header, load_header-wire, net_str-wire}
use tzrpc.Rpc.RpcInstance.{RpcInstance, new_instance, validate_payload, validate_request}

-- A request of this protocol, of less than 4 GiB.
pub record IsRequest (m : RpcRequestMessage) : Type 0 where
  pub header : IsHeader m.header
  pub magic : m.header.magic ≡ rpc_header_magic
  pub version : m.header.version ≡ rpc_header_version
  pub fits : request_header_size + length m.payload < 2 ^ 32

-- The instance that holds a request, with nothing left to parse.
abbrev pub holding : ℕ → RpcRequestMessage → Bytes → RpcInstance
holding full_socket m payload = record (new_instance full_socket payload) {
  request = record { bytes = [] };
  rpc_request_message = m;
  service_id = m.header.service_id;
  opcode = m.header.opcode;
}

module _ (host peer : Endian) (full_socket : ℕ) (m : RpcRequestMessage) (v : IsRequest m) where
  wire : net_str peer m ≡ wire_header m.header ++ m.payload
  wire = net_str-wire peer m v.header

  read_header :
      from_net_endian host
        (load_header host (consume (of_string (net_str peer m)) [] request_header_size).1)
      ≡ m.header
  unfolding of_string
  read_header =
      ap (λ (bs : Bytes). from_net_endian host (load_header host bs))
        (consume-take (of_string (net_str peer m)) request_header_size
          ∙ ap (λ (bs : Bytes). take request_header_size bs) wire)
      ∙ load_header-wire host m.header [] v.header

  left :
      (consume (of_string (net_str peer m)) [] request_header_size).2 ≡ record { bytes = m.payload }
  unfolding of_string
  left =
      ap (λ (bs : Bytes). record { bytes = bs })
        (consume-drop (of_string (net_str peer m)) request_header_size
          ∙ ap (λ (bs : Bytes). drop request_header_size bs) wire)

  size : length (net_str peer m) ≡ request_header_size + length m.payload
  size = rw wire (omega arith)

  exact : get_length (of_string (net_str peer m)) ≡ request_header_size + length m.payload
  unfolding get_length of_string
  exact = omega (arith, size, v.fits)

  -- The instance once the header is read.
  abbrev headed : RpcInstance
  headed = record (new_instance full_socket (net_str peer m)) {
    request = record { bytes = m.payload };
    service_id = m.header.service_id;
    opcode = m.header.opcode;
  }

  validate_header :
      validate_request host (new_instance full_socket (net_str peer m))
      ≡ validate_payload headed m.header
  unfolding validate_request new_instance
  validate_header = ground (arith, read_header, left, exact, v.magic, v.version)

  consumed : (headed.msg_size + 2 ^ 32 - request_header_size) % 2 ^ 32 ≡ length m.payload
  unfolding new_instance
  consumed = rw size (omega (arith, v.fits))

  taken : (consume headed.request [] (length m.payload)).1 ≡ m.payload
  unfolding new_instance
  taken =
      consume-take headed.request (length m.payload)
      ∙ take-all (length m.payload) m.payload (omega arith)

  emptied : (consume headed.request [] (length m.payload)).2 ≡ record { bytes = [] }
  unfolding new_instance
  emptied =
      ap (λ (bs : Bytes). record { bytes = bs })
        (consume-drop headed.request (length m.payload)
          ∙ drop-all (length m.payload) m.payload (omega arith))

  -- A well-formed request of less than 4 GiB with a payload, which a peer of either byte order
  -- encoded, is taken whole: the ids of the instance are those of its header, the message is the
  -- one that was sent, and nothing is left over.
  pub validate_request-net_str :
      m.payload ≢ []
      → validate_request host (new_instance full_socket (net_str peer m))
        ≡ (true, holding full_socket m (net_str peer m))
  unfolding validate_payload
  validate_request-net_str some_payload = validate_header ∙ ground (arith, consumed, taken, emptied)

  -- A request with no payload is turned down, although it is well formed; its service id is set.
  pub validate_request_empty :
      m.payload ≡ []
      → ((validate_request host (new_instance full_socket (net_str peer m))).0 ≡ false)
        × ((validate_request host (new_instance full_socket (net_str peer m))).1.service_id
            ≡ m.header.service_id)
  unfolding validate_payload
  validate_request_empty no_payload = rw validate_header (ground (arith, consumed, taken, emptied))
