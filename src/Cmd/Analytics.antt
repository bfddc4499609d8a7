-- ===== src/Cmd/Analytics.antt =====
-- go-ooo/cmd/analytics.go: the commands for statistics and for a suggested fee.
use Prim.Native.String.{◌++◌ as ◌<>◌}
use xfund_router.Common.{
  ℕ, String, true, false, ◌&&◌, List, [], ◌∷◌, Result, ok, err, ltb, if◌then◌else◌,
}
use xfund_router.Common.Int.{ℤ, pos, is_positive}
use xfund_router.Utils.{Floats}
use xfund_router.Chain.Caller.{gwei}
use xfund_router.Service.Server.{HttpResponse}
use xfund_router.Service.Analytics.Types.{Arithmetic, AnalyticsTask, AnalyticsTaskResponse}
use xfund_router.Cmd.Admin.{Remote, Output, printed, send}

-- The flags of the commands.
pub record Flags (f : Floats) : Type 0 where
  pub num_txs : ℤ
  pub consumer : String
  pub curr_xfund_price : f.F
  pub sim_gas_price : ℕ
  pub sim_xfund_fee : f.F

-- More of `encoding/json` and `fmt`: the price in ether that `Unmarshal` leaves, whatever its
-- error, and the texts of a float, of a float with 18 places and of a number.
pub record Json (f : Floats) : Type 0 where
  pub analytics_task_text : AnalyticsTask f → Result String
  pub analytics_response_in : String → Result (AnalyticsTaskResponse f)
  pub xfund_eth_in : String → f.F
  pub float_text : f.F → String
  pub fixed18 : f.F → String
  pub nat_text : ℕ → String

abbrev pub price_url : String
price_url = "https://api.coingecko.com/api/v3/simple/price?ids=xfund&vs_currencies=eth%2Cusd"

module _ {f : Floats} (c : Remote) (j : Json f) where
  abbrev price_in_body : Result String → f.F
  price_in_body (err e) = f.of_nat 0
  price_in_body (ok body) = j.xfund_eth_in body

  -- A price that cannot be had is 0.
  abbrev price_of : Result HttpResponse → f.F
  price_of (err e) = f.of_nat 0
  price_of (ok res) = price_in_body (c.read_all res)

  unfoldable pub get_xfund_price : c.Net → f.F × c.Net
  get_xfund_price net = let (res, net1) = c.get price_url net in (price_of res, net1)

  -- The price of the flag, or else of CoinGecko.
  unfoldable pub curr_xfund_price : Flags f → c.Net → f.F × c.Net
  curr_xfund_price flags net =
      let asked = get_xfund_price net in
      if f.gt flags.curr_xfund_price (f.of_nat 0) then (flags.curr_xfund_price, net) else asked

  abbrev num_txs_or_100 : ℤ → ℤ
  num_txs_or_100 n = if is_positive n then n else pos 100

  unfoldable pub analytics_task : Flags f → f.F → AnalyticsTask f
  analytics_task flags price = record {
    consumer = flags.consumer;
    num_txs = num_txs_or_100 flags.num_txs;
    curr_xfund_price = price;
    simulate = f.gt flags.sim_xfund_fee (f.of_nat 0) && ltb 0 flags.sim_gas_price;
    suggest_fee = false;
    gas_price = flags.sim_gas_price;
    xfund_fee = if f.gt flags.sim_xfund_fee (f.of_nat 0) then flags.sim_xfund_fee else f.of_nat 0;
  }

  unfoldable pub suggest_fee_task : Flags f → f.F → AnalyticsTask f
  suggest_fee_task flags price = record {
    consumer = "";
    num_txs = num_txs_or_100 flags.num_txs;
    curr_xfund_price = price;
    simulate = false;
    suggest_fee = true;
    gas_price = 0;
    xfund_fee = f.of_nat 0;
  }

  module _ (a : Arithmetic f) where
    -- The suggested fee in gwei, as a `uint64`.
    abbrev pub usable_fee : f.F → ℕ
    usable_fee fee = a.float_uint64 (a.mul (f.new_float fee) (f.new_float (f.of_nat gwei)))

    abbrev pub fee_lines : AnalyticsTaskResponse f → List String
    fee_lines tr =
        let suggested_fee = tr.result.analytics_data.suggested_fee in
        ("Suggested fee              : " <> (j.float_text suggested_fee <> " xFUND"))
        ∷ ("Fee in lowest denomination : " <> j.nat_text (usable_fee suggested_fee))
        ∷ ("Profit/Loss                : "
            <> (j.fixed18 tr.result.analytics_data.profit_loss_eth <> " ETH"))
        ∷ []

    abbrev pretty_lines : Result String → AnalyticsTaskResponse f → List String
    pretty_lines (err e) tr = ("JSON parse error:  " <> e) ∷ []
    pretty_lines (ok pretty) tr = if tr.task.suggest_fee then fee_lines tr else pretty ∷ []

    abbrev pub analytics_lines : String → Result (AnalyticsTaskResponse f) → List String
    analytics_lines body (err e) = e ∷ []
    analytics_lines body (ok tr) = pretty_lines (c.indent body) tr

    abbrev status_lines : HttpResponse → String → List String
    status_lines resp body = ("Error   : " <> c.status_text resp) ∷ ("Body : " <> body) ∷ []

    abbrev send_task : String → Result String → c.Net → Output × c.Net
    send_task password (err e) net = (printed ("Can't marshal request" ∷ []), net)
    send_task password (ok request_json) net =
        send c "/analytics" password request_json
          (λ body. analytics_lines body (j.analytics_response_in body)) status_lines net

    abbrev with_analytics_header : Output × c.Net → Output × c.Net
    with_analytics_header (out, net) =
        (record out { lines = "" ∷ "attempting to send analytics task" ∷ "" ∷ out.lines }, net)

    unfoldable pub process_analytics_task : AnalyticsTask f → Result String → c.Net → Output × c.Net
    process_analytics_task task (err e) net = (printed (e ∷ []), net)
    process_analytics_task task (ok password) net =
        with_analytics_header (send_task password (j.analytics_task_text task) net)

    unfoldable pub analytics_cmd : Flags f → Result String → c.Net → Output × c.Net
    analytics_cmd flags password net =
        let (price, net1) = curr_xfund_price flags net in
        process_analytics_task (analytics_task flags price) password net1

    unfoldable pub suggest_fee_cmd : Flags f → Result String → c.Net → Output × c.Net
    suggest_fee_cmd flags password net =
        let (price, net1) = curr_xfund_price flags net in
        process_analytics_task (suggest_fee_task flags price) password net1
