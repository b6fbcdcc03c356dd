-- ===== src/Stat.antt =====
-- stat.go: the counters of the server and the loop that reports them. Flows (turbo) and metrics
-- (prometheus) are third-party types, so they are a parameter.
pub mod Accounting
use go_moa.Base.{
  ℕ, suc, ◌+◌, Bool, true, false, ◌≡◌, Text, codes, Option, none, some, List, [], ◌∷◌, ◌++◌, ◌==◌,
  if◌then◌else◌,
}

-- What the code uses of turbo.Flow and of the prometheus types.
pub record Meters : Type 1 where
  pub Flow : Type 0
  pub new_flow : Flow
  pub incr : ℕ → Flow → Flow
  pub count : Flow → ℕ
  pub changes : Flow → ℕ × Flow
  pub Counter : Type 0
  pub new_counter : Counter
  pub inc : Counter → Counter
  pub Gauge : Type 0
  pub new_gauge : Gauge
  pub set_gauge : ℕ → Gauge → Gauge
  pub Summary : Type 0
  pub new_summary : Summary
  pub observe : Text → ℕ → Summary → Summary

pub record MoaInfo : Type 0 where
  pub recv : ℕ
  pub proc : ℕ
  pub error : ℕ
  pub timeout : ℕ
  pub moa_invoke_pool : ℕ
  pub connections : ℕ
  pub total_goroutine : ℕ

pub record MoaStatistic (M : Meters) : Type 0 where
  pub recv : M.Flow
  pub proc : M.Flow
  pub error : M.Flow
  pub timeout : M.Flow

pub record MoaMetrics (M : Meters) : Type 0 where
  pub rpc_receive_total_counter : M.Counter
  pub rpc_process_total_counter : M.Counter
  pub rpc_error_total_counter : M.Counter
  pub rpc_timeout_total_counter : M.Counter
  pub rpc_invoke_duration_summary : M.Summary
  pub invoke_pool_max_gauge : M.Gauge
  pub invoke_pool_inuse_gauge : M.Gauge

-- The ticker is nil until StartLog, and then running or stopped. `registered` says whether the
-- collectors stand in the default registerer.
pub data Ticker : Type 0 where
  no_ticker running stopped : Ticker

pub record MoaStat (M : Meters) : Type 0 where
  pub pre_moa_info : MoaInfo
  pub curr_moa_info : MoaStatistic M
  pub rotate_size : ℕ
  pub moa_ticker : Ticker
  pub hostname : Text
  pub service_uri : Text
  pub moa_metrics : MoaMetrics M
  pub registered : Bool

-- The part of turbo.NetworkStat, of the pool's Monitor and of the runtime that a round reads.
pub record Sample : Type 0 where
  pub size : ℕ
  pub invoke_cap : ℕ
  pub connections : ℕ
  pub num_goroutine : ℕ

abbrev pub max_rotate_size : ℕ
max_rotate_size = 10

abbrev pub no_info : MoaInfo
no_info = record {
  recv = 0;
  proc = 0;
  error = 0;
  timeout = 0;
  moa_invoke_pool = 0;
  connections = 0;
  total_goroutine = 0;
}

unfoldable pub fresh_moa_stat : (M : Meters) → Text → Text → MoaStat M
fresh_moa_stat M hostname service_uri = record {
  pre_moa_info = no_info;
  curr_moa_info = record {
    recv = M.new_flow;
    proc = M.new_flow;
    error = M.new_flow;
    timeout = M.new_flow;
  };
  rotate_size = 0;
  moa_ticker = no_ticker;
  hostname = hostname;
  service_uri = service_uri;
  moa_metrics = record {
    rpc_receive_total_counter = M.new_counter;
    rpc_process_total_counter = M.new_counter;
    rpc_error_total_counter = M.new_counter;
    rpc_timeout_total_counter = M.new_counter;
    rpc_invoke_duration_summary = M.new_summary;
    invoke_pool_max_gauge = M.new_gauge;
    invoke_pool_inuse_gauge = M.new_gauge;
  };
  registered = true;
}

-- The constructors of the collectors register them, and panic where they stand in the default
-- registerer already.
unfoldable pub new_moa_stat : (M : Meters) → Bool → Text → Text → Option (MoaStat M)
unfolding fresh_moa_stat
new_moa_stat M metrics_registered hostname service_uri =
    if metrics_registered then none else some (fresh_moa_stat M hostname service_uri)

module _ {M : Meters} where
  open M use {incr, inc, changes, set_gauge, observe}

  unfoldable pub incr_recv : MoaStat M → MoaStat M
  incr_recv s = record s {
    curr_moa_info = record s.curr_moa_info { recv = incr 1 s.curr_moa_info.recv };
    moa_metrics = record s.moa_metrics {
      rpc_receive_total_counter = inc s.moa_metrics.rpc_receive_total_counter;
    };
  }

  unfoldable pub incr_proc : MoaStat M → MoaStat M
  incr_proc s = record s {
    curr_moa_info = record s.curr_moa_info { proc = incr 1 s.curr_moa_info.proc };
    moa_metrics = record s.moa_metrics {
      rpc_process_total_counter = inc s.moa_metrics.rpc_process_total_counter;
    };
  }

  unfoldable pub incr_error : MoaStat M → MoaStat M
  incr_error s = record s {
    curr_moa_info = record s.curr_moa_info { error = incr 1 s.curr_moa_info.error };
    moa_metrics = record s.moa_metrics {
      rpc_error_total_counter = inc s.moa_metrics.rpc_error_total_counter;
    };
  }

  unfoldable pub incr_timeout : MoaStat M → MoaStat M
  incr_timeout s = record s {
    curr_moa_info = record s.curr_moa_info { timeout = incr 1 s.curr_moa_info.timeout };
    moa_metrics = record s.moa_metrics {
      rpc_timeout_total_counter = inc s.moa_metrics.rpc_timeout_total_counter;
    };
  }

  -- The observation that Invoke makes of a call's duration, here in nanoseconds.
  unfoldable pub observe_cost : Text → ℕ → MoaStat M → MoaStat M
  observe_cost method cost s = record s {
    moa_metrics = record s.moa_metrics {
      rpc_invoke_duration_summary = observe method cost s.moa_metrics.rpc_invoke_duration_summary;
    };
  }

  unfoldable pub get_moa_info : MoaStat M → MoaInfo
  get_moa_info s = s.pre_moa_info

  unfoldable pub destroy : MoaStat M → MoaStat M
  destroy s = record s { moa_ticker = stop s.moa_ticker; registered = false }
    where
      stop : Ticker → Ticker
      stop no_ticker = no_ticker
      stop _ = stopped

  -- One round of the loop in StartLog up to the call of the monitor.
  unfoldable pub tick : Sample → MoaStat M → MoaStat M
  tick x s = record s {
    moa_metrics = record s.moa_metrics {
      invoke_pool_inuse_gauge = set_gauge x.size s.moa_metrics.invoke_pool_inuse_gauge;
      invoke_pool_max_gauge = set_gauge x.invoke_cap s.moa_metrics.invoke_pool_max_gauge;
    };
    pre_moa_info = record {
      recv = (changes s.curr_moa_info.recv).0;
      proc = (changes s.curr_moa_info.proc).0;
      error = (changes s.curr_moa_info.error).0;
      timeout = (changes s.curr_moa_info.timeout).0;
      moa_invoke_pool = x.size;
      connections = x.connections;
      total_goroutine = x.num_goroutine;
    };
    curr_moa_info = record {
      recv = (changes s.curr_moa_info.recv).1;
      proc = (changes s.curr_moa_info.proc).1;
      error = (changes s.curr_moa_info.error).1;
      timeout = (changes s.curr_moa_info.timeout).1;
    };
    rotate_size = if s.rotate_size == max_rotate_size then 0 else s.rotate_size + 1;
  }

  -- StartLog makes the ticker; then the loop runs a round for each tick. A round whose monitor
  -- panics is the last: the deferred function destroys the statistics. A round that the network's
  -- or the pool's function breaks off is a sample that is missing. The infos are those that the
  -- monitor was called with, the last one first.
  report : List (Option Sample × Bool) → MoaStat M → List MoaInfo → MoaStat M × List MoaInfo
  report [] s infos = (s, infos)
  report ((none, _) ∷ rounds) s infos = (destroy s, infos)
  report ((some x, true) ∷ rounds) s infos =
      report rounds (tick x s) ((tick x s).pre_moa_info ∷ infos)
  report ((some x, false) ∷ rounds) s infos = (destroy (tick x s), (tick x s).pre_moa_info ∷ infos)

  unfoldable pub start_log : List (Option Sample × Bool) → MoaStat M → MoaStat M × List MoaInfo
  unfolding report
  start_log rounds s = report rounds (record s { moa_ticker = running }) []
