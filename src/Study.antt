-- ===== src/Study.antt =====
-- host/analysis/stage2a.py: the status of the hypotheses on an operator against the reference. The numbers
-- are the floating-point results of `stats`; here they are of any type with the comparisons and the
-- difference that the code uses.
pub mod Statuses
pub mod Spreads
use mps4_prototyping_board.Prelude.{
  ℕ, ◌≡◌, ◌≢◌, List, [], ◌∷◌, ◌++◌, map, Bool, true, false, not, ◌&&◌, ◌||◌, ◌==◌, if◌then◌else◌,
}

-- What the analysis uses of its numbers.
pub record Numbers : Type 1 where
  pub Num : Type 0
  pub lt : Num → Num → Bool
  pub leq : Num → Num → Bool
  pub same : Num → Num → Bool
  pub minus : Num → Num → Num
  pub nil : Num

-- The entries of `stats` that are read.
pub record Spread (A : Type 0) : Type 0 where
  pub median : A
  pub min : A
  pub max : A
  pub deterministic : Bool

pub data Metric : Type 0 where
  npu_active mac_active : Metric
  mac_active_ratio dpu_given_mac_active ao_active_ratio wd_stalled_ratio : Metric
  mac_ib_stall_ratio mac_w_or_acc_stall_ratio mac_active_cycle_efficiency : Metric

pub data Separation : Type 0 where
  higher lower overlap : Separation

pub data Status : Type 0 where
  supported partial_support correlated_only unresolved refuted : Status

pub data Source : Type 0 where
  trm driver : Source

pub data Hypothesis : Type 0 where
  h1 h2 h3 h3b h4 h5 h6 : Hypothesis

-- INACTIVITY: the counter metric of a hypothesis, and where its meaning comes from.
abbrev pub inactivity : List (Hypothesis × (Metric × Source))
inactivity =
    (h1, (wd_stalled_ratio, trm))
    ∷ (h2, (mac_ib_stall_ratio, driver))
    ∷ (h3b, (mac_w_or_acc_stall_ratio, driver))
    ∷ (h4, (ao_active_ratio, trm))
    ∷ []

abbrev pub stalls : List Metric
stalls = wd_stalled_ratio ∷ mac_ib_stall_ratio ∷ mac_w_or_acc_stall_ratio ∷ []

-- The statuses that open a route, and the route by its number in the order of ROUTES.
abbrev pub opens : Hypothesis → Status → Bool
opens h1 supported = true
opens h1 partial_support = true
opens h2 partial_support = true
opens h2 correlated_only = true
opens h3b partial_support = true
opens h3b correlated_only = true
opens h4 supported = true
opens h4 partial_support = true
opens h5 supported = true
opens h6 supported = true
opens h s = false

abbrev pub is_lower : Separation → Bool
is_lower lower = true
is_lower s = false

abbrev pub is_higher : Separation → Bool
is_higher higher = true
is_higher s = false

-- The table of `inactivity_status` where the metric is higher.
abbrev pub by_source : Source → Bool → Status
by_source trm true = supported
by_source trm false = partial_support
by_source driver true = partial_support
by_source driver false = correlated_only

-- A route, by what it follows from; `request_stall` is the one for no component evidence.
pub data Route : Type 0 where
  from : Hypothesis → Route
  request_stall : Route

module _ (n : Numbers) where
  -- The metrics of a valid workload.
  abbrev pub Metrics : Type 0
  Metrics = Metric → Spread n.Num

  unfoldable pub separation : Spread n.Num → Spread n.Num → Separation
  separation op ref =
      if n.lt ref.max op.min then higher else if n.lt op.max ref.min then lower else overlap

  -- The status of a metric that separates in the given way, with the excess that it shows.
  abbrev pub judge : Separation → Source → Bool → Bool → Status
  judge higher source covers positive = by_source source covers
  judge overlap source covers positive = if positive then unresolved else refuted
  judge lower source covers positive = refuted

  -- `inactivity_status`, its status.
  unfoldable pub inactivity_status : Metrics → Metrics → Metric → Source → Status
  unfolding separation
  inactivity_status op ref metric source =
      let sep = separation (op metric) (ref metric) in
      let excess = n.minus (op metric).median (ref metric).median in
      let gap = n.minus (ref mac_active_ratio).median (op mac_active_ratio).median in
      if not (is_lower (separation (op mac_active_ratio) (ref mac_active_ratio)))
      then unresolved
      else judge sep source (n.leq gap excess) (n.lt n.nil excess)

  -- `stalls_higher`
  unfoldable pub stalls_higher : Metrics → Metrics → List Metric → List Metric
  unfolding separation
  stalls_higher op ref [] = []
  stalls_higher op ref (s ∷ ss) =
      let rest = stalls_higher op ref ss in
      if is_higher (separation (op s) (ref s)) then s ∷ rest else rest

  abbrev pub h5_of : Separation → List Metric → Status
  h5_of lower raised = refuted
  h5_of c [] = supported
  h5_of c (s ∷ ss) = unresolved

  abbrev pub h6_of : Separation → Status
  h6_of lower = supported
  h6_of higher = refuted
  h6_of overlap = unresolved

  -- `efficiency_status`: the statuses of H5 and of H6.
  unfoldable pub efficiency_status : Metrics → Metrics → Status × Status
  unfolding separation stalls_higher
  efficiency_status op ref =
      let c = separation (op dpu_given_mac_active) (ref dpu_given_mac_active) in
      if is_lower (separation (op mac_active_cycle_efficiency) (ref mac_active_cycle_efficiency))
      then (h5_of c (stalls_higher op ref stalls), h6_of c)
      else (refuted, refuted)

  -- `h`: the statuses of the hypotheses of one operator.
  unfoldable pub statuses : Metrics → Metrics → List (Hypothesis × Status)
  unfolding inactivity_status efficiency_status
  statuses op ref =
      map
        (λ (row : Hypothesis × (Metric × Source)).
          (row.0, inactivity_status op ref row.1.0 row.1.1))
        inactivity
      ++ (h3, unresolved)
        ∷ (h5, (efficiency_status op ref).0)
        ∷ (h6, (efficiency_status op ref).1)
        ∷ []

  abbrev pub is_component : Status → Bool
  is_component supported = true
  is_component partial_support = true
  is_component s = false

  -- `any(h[k]["status"] in (...) for k in INACTIVITY)`
  unfoldable pub any_component : Metrics → Metrics → List (Hypothesis × (Metric × Source)) → Bool
  unfolding inactivity_status
  any_component op ref [] = false
  any_component op ref ((h, (metric, source)) ∷ rows) =
      is_component (inactivity_status op ref metric source) || any_component op ref rows

  -- `[why for k, (hit, why) in ROUTES.items() if h[k]["status"] in hit]`
  unfoldable pub routes_of : List (Hypothesis × Status) → List Route
  routes_of [] = []
  routes_of ((h, s) ∷ rows) = let rest = routes_of rows in if opens h s then from h ∷ rest else rest

  -- `hypotheses` for one operator: the statuses, whether there is component evidence, and the routes.
  unfoldable pub hypotheses : Metrics → Metrics → List (Hypothesis × Status) × (Bool × List Route)
  unfolding statuses any_component routes_of
  hypotheses op ref =
      let found = any_component op ref inactivity in
      (
        statuses op ref,
        (found, routes_of (statuses op ref) ++ (if found then [] else request_stall ∷ [])),
      )

  -- `reproduction`, its result: `some` of the reference's two entries.
  unfoldable pub reproduced : Metrics → Metrics → Bool
  reproduced op ref =
      let mac = op mac_active in
      let npu = op npu_active in
      ((ref mac_active).deterministic
        && (n.same mac.min mac.max && n.same mac.max (ref mac_active).median))
      && (n.leq (ref npu_active).min npu.median && n.leq npu.median (ref npu_active).max)
