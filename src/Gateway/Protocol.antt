-- ===== src/Gateway/Protocol.antt =====
-- include/protocol.h: the packed messages, little-endian as the server's machine stores them.
use order_matching_engine.Prelude.{ℕ, zero, suc, ◌+◌, ◌*◌, List, [], ◌∷◌, ◌==◌, if◌then◌else◌, take}
use order_matching_engine.Prelude.Bytes.{Bytes}
use order_matching_engine.Price.{Price}
use order_matching_engine.Types.{OrderId, Quantity}

-- `MessageType`, by the byte that stands for it; `unknown` is any other byte.
pub data MessageType : Type 0 where
  login_request new_order market_data_request subscription_request order_cancel unknown :
      MessageType

-- The byte behind the sequence number, by the comparisons of `processPacket`.
abbrev pub type_of_byte : ℕ → MessageType
type_of_byte c =
    if c == b'L'
    then MessageType.login_request
    else if c == b'N'
    then MessageType.new_order
    else if c == b'M'
    then MessageType.market_data_request
    else if c == b'Q'
    then MessageType.subscription_request
    else if c == b'C'
    then MessageType.order_cancel
    else MessageType.unknown

abbrev pub drop_bytes : ℕ → Bytes → Bytes
drop_bytes zero bs = bs
drop_bytes (suc n) [] = []
drop_bytes (suc n) (b ∷ bs) = drop_bytes n bs

-- The number that bytes stand for, the lowest first.
unfoldable pub little_endian : Bytes → ℕ
little_endian [] = 0
little_endian (b ∷ bs) = b + 256 * little_endian bs

-- The field of `n` bytes at an offset.
abbrev pub field_at : ℕ → ℕ → Bytes → Bytes
field_at offset n bs = take n (drop_bytes offset bs)

abbrev pub number_at : ℕ → ℕ → Bytes → ℕ
number_at offset n bs = little_endian (field_at offset n bs)

-- `MessageHeader`: `seq_num` at 0, `type` at 2, `msg_len` at 3.
abbrev pub header_size : ℕ
header_size = 5

abbrev pub message_type : Bytes → MessageType
message_type bs = type_of_byte (number_at 2 1 bs)

abbrev pub msg_len : Bytes → ℕ
msg_len bs = number_at 3 2 bs

-- The sizes of the requests.
abbrev pub login_size : ℕ
login_size = 45

abbrev pub new_order_size : ℕ
new_order_size = 49

abbrev pub market_data_size : ℕ
market_data_size = 15

abbrev pub subscription_size : ℕ
subscription_size = 16

abbrev pub cancel_size : ℕ
cancel_size = 32

pub record NewOrderRequest : Type 0 where
  pub client_order_id : OrderId
  pub user_id : ℕ
  pub symbol : Bytes
  pub side : ℕ
  pub type : ℕ
  pub price : Price
  pub quantity : Quantity

pub record OrderCancelRequest : Type 0 where
  pub client_order_id : OrderId
  pub user_id : ℕ
  pub symbol : Bytes
  pub side : ℕ

pub record SubscriptionRequest : Type 0 where
  pub symbol : Bytes
  pub is_subscribe : ℕ

unfoldable pub read_new_order : Bytes → NewOrderRequest
read_new_order bs = record {
  client_order_id = number_at 5 8 bs;
  user_id = number_at 13 8 bs;
  symbol = field_at 21 10 bs;
  side = number_at 31 1 bs;
  type = number_at 32 1 bs;
  price = number_at 33 8 bs;
  quantity = number_at 41 8 bs;
}

unfoldable pub read_cancel : Bytes → OrderCancelRequest
read_cancel bs = record {
  client_order_id = number_at 5 8 bs;
  user_id = number_at 13 8 bs;
  symbol = field_at 21 10 bs;
  side = number_at 31 1 bs;
}

abbrev pub read_symbol : Bytes → Bytes
read_symbol bs = field_at 5 10 bs

unfoldable pub read_subscription : Bytes → SubscriptionRequest
read_subscription bs = record { symbol = read_symbol bs; is_subscribe = number_at 15 1 bs }

-- What the server sends.
pub record ExecutionReport : Type 0 where
  pub client_order_id : OrderId
  pub user_id : ℕ
  pub execution_id : ℕ
  pub symbol : Bytes
  pub side : ℕ
  pub price : Price
  pub quantity : Quantity
  pub filled_quantity : Quantity
  pub status : ℕ

pub record TradeUpdate : Type 0 where
  pub symbol : Bytes
  pub price : Price
  pub quantity : Quantity
  pub timestamp : ℕ
  pub make_side : ℕ

-- `num_bids` and `num_asks` are the lengths of the lists.
pub record MarketDataSnapshot : Type 0 where
  pub symbol : Bytes
  pub bids : List (Price × Quantity)
  pub asks : List (Price × Quantity)

pub data Packet : Type 0 where
  login_response : (status : ℕ) (message : Bytes) → Packet
  execution_report : ExecutionReport → Packet
  market_data : MarketDataSnapshot → Packet
  trade_update : TradeUpdate → Packet

-- `strncpy(to, symbol.c_str(), sizeof(to) - 1)` into a field of 10 bytes; the bytes behind the text
-- are left out, since the last one is not initialised.
abbrev pub strncpy : Bytes → Bytes
strncpy symbol = take 9 symbol
