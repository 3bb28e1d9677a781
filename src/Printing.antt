-- ===== src/Printing.antt =====
-- include/order.h: the texts of sides, types, statuses and orders. How a stream shows numbers and
-- prices is a parameter. The default cases of the switches stand for no enumerator.
use Prim.Native.Char.{code}
use Prim.Native.String.{String}
use order_matching_engine.Prelude.{
  ℕ, ◌≡◌, refl, sym, ap, ◌∙◌, List, [], ◌∷◌, ◌++◌, ◌==◌, if◌then◌else◌,
}
use order_matching_engine.Prelude.Bytes.{Bytes}
use order_matching_engine.Price.{Price}
use order_matching_engine.Types.{
  OrderSide, buy, sell, OrderType, limit, market, fok, ioc, gfd, OrderStatus, new, partial, filled,
  cancelled, Order,
}

-- The bytes of a text of ASCII characters.
abbrev pub codes : String → Bytes
codes String.[] = []
codes (String.◌∷◌ c s) = code c ∷ codes s

unfoldable side_text : OrderSide → Bytes
side_text buy = codes "BUY"
side_text sell = codes "SELL"

unfoldable type_text : OrderType → Bytes
type_text limit = codes "LIMIT"
type_text market = codes "MARKET"
type_text ioc = codes "IOC"
type_text fok = codes "FOK"
type_text gfd = codes "GFD"

unfoldable status_text : OrderStatus → Bytes
status_text new = codes "NEW"
status_text partial = codes "PARTIALLY_FILLED"
status_text filled = codes "FILLED"
status_text cancelled = codes "CANCELLED"

abbrev joined : List Bytes → Bytes
joined [] = []
joined (text ∷ texts) = text ++ joined texts

-- `operator<<`: what it adds to the stream.
unfoldable print_order : (ℕ → Bytes) → (Price → Bytes) → Order → Bytes
print_order number price o = joined (
    codes "Order{ID:"
    ∷ number o.id
    ∷ codes ", Symbol:"
    ∷ o.symbol
    ∷ codes ", Side:"
    ∷ side_text o.side
    ∷ codes ", Type:"
    ∷ type_text o.type
    ∷ codes ", Price:"
    ∷ price o.price
    ∷ codes ", Quantity:"
    ∷ number o.quantity
    ∷ codes ", Filled:"
    ∷ number o.quantity_filled
    ∷ codes ", Status:"
    ∷ status_text o.status
    ∷ codes ", Timestamp:"
    ∷ number o.timestamp
    ∷ codes "}"
    ∷ [])

-- What the texts are read as, by their first letters.
abbrev of_first : Bytes → OrderType
of_first [] = limit
of_first (c ∷ cs) =
    if c == 77
    then market
    else if c == 73
    then ioc
    else if c == 70
    then fok
    else if c == 71
    then gfd
    else limit

of_first-type_text : (t : OrderType) → of_first (type_text t) ≡ t
unfolding type_text
of_first-type_text limit = refl
of_first-type_text market = refl
of_first-type_text fok = refl
of_first-type_text ioc = refl
of_first-type_text gfd = refl

-- Different types have different texts.
type_text-inj : (s t : OrderType) → type_text s ≡ type_text t → s ≡ t
type_text-inj s t same = sym (of_first-type_text s) ∙ ap of_first same ∙ of_first-type_text t
