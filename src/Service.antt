-- ===== src/Service.antt =====
-- `ServiceFilter` of src/service_filter.hh: it hands on the packets of one service, with a PAT that
-- names that service alone. A failed assertion is `none`. The demux calls are kept newest first.
pub mod Filters
pub mod Sets
pub mod Ready
pub mod Safety
pub mod Forward
use mirakc_arib.Prelude.{
  ℕ, suc, Bool, true, false, not, ◌||◌, ◌&&◌, Option, none, some, List, [], ◌∷◌, ℤ, ltb_ℤ, contains,
  insert, length, lookup, select, ltb, ◌==◌, if◌then◌else◌, has_value, maybe, ◌>>=◌, ◌>>◌, assert,
}
use mirakc_arib.Sink.{PacketSink, exit_success, exit_failure}
use mirakc_arib.Tables.{
  Packet, Pat, Cat, Stream, Pmt, Tot, Table, pat, cat, pmt, tot, DemuxCall, add_pid, remove_pid,
  Packetizer, pid_pat, pid_cat, pid_nit, pid_sdt, pid_eit, pid_rst, pid_tot, pid_bit, pid_cdt,
  pid_null,
}

pub record ServiceFilterOption : Type 0 where
  pub sid : ℕ
  pub time_limit : Option ℤ

pub record ServiceFilter (S Z : Type 0) : Type 0 where
  pub option : ServiceFilterOption
  pub demux : List DemuxCall
  pub pat_packetizer : Z
  pub sink : Option S
  pub psi_filter : List ℕ
  pub content_filter : List ℕ
  pub emm_filter : List ℕ
  pub pmt_pid : ℕ
  pub done : Bool
  pub error : Bool

abbrev pub psi_filter_pids : List ℕ
psi_filter_pids =
    pid_pat ∷ pid_cat ∷ pid_nit ∷ pid_sdt ∷ pid_eit ∷ pid_rst ∷ pid_tot ∷ pid_bit ∷ pid_cdt ∷ []

-- The constructor, with the packetizer that it makes.
unfoldable pub create : {S Z : Type 0} → ServiceFilterOption → Z → ServiceFilter S Z
create option packetizer = record {
  option = option;
  demux =
      let calls = add_pid pid_cat ∷ add_pid pid_pat ∷ [] in
      if has_value option.time_limit then add_pid pid_tot ∷ calls else calls;
  pat_packetizer = packetizer;
  sink = none;
  psi_filter = [];
  content_filter = [];
  emm_filter = [];
  pmt_pid = pid_null;
  done = false;
  error = false;
}

unfoldable pub connect : {S Z : Type 0} → ServiceFilter S Z → S → ServiceFilter S Z
connect s sink = record s { sink = some sink }

unfoldable pub check_filter_for_drop : {S Z : Type 0} → ServiceFilter S Z → ℕ → Bool
check_filter_for_drop s pid =
    if contains pid s.content_filter
    then false
    else if contains pid s.psi_filter
    then false
    else if contains pid s.emm_filter
    then false
    else true

unfoldable pub is_safe_dynamic_pid : ℕ → Bool
is_safe_dynamic_pid pid = if pid == pid_null then false else not (contains pid psi_filter_pids)

-- `insert` for each of the PIDs that is safe.
unfoldable pub insert_safe : List ℕ → List ℕ → List ℕ
unfolding is_safe_dynamic_pid
insert_safe [] filter = filter
insert_safe (pid ∷ pids) filter =
    insert_safe pids (if is_safe_dynamic_pid pid then insert pid filter else filter)

abbrev pub insert_all : List ℕ → List ℕ → List ℕ
insert_all [] filter = filter
insert_all (pid ∷ pids) filter = insert_all pids (insert pid filter)

abbrev pub stream_pids : List Stream → List ℕ
stream_pids [] = []
stream_pids (stream ∷ streams) = stream.pid ∷ stream_pids streams

-- The PAT without the other services.
unfoldable pub only_service : ℕ → Pat → Pat
only_service sid t = record t { pmts = select (λ entry. entry.0 == sid) t.pmts }

unfoldable pub handle_cat : {S Z : Type 0} → ServiceFilter S Z → Cat → ServiceFilter S Z
handle_cat s t = if t.is_valid then record s { emm_filter = insert_safe t.ca_pids [] } else s

unfoldable pub handle_pmt : {S Z : Type 0} → ServiceFilter S Z → Pmt → ServiceFilter S Z
handle_pmt s t =
    let filter =
      insert_safe (stream_pids t.streams)
        (insert_safe t.ca_pids (insert_safe (t.pcr_pid ∷ []) [])) in
    if t.is_valid
    then if t.service_id == s.option.sid then record s { content_filter = filter } else s
    else s

unfoldable pub check_time_limit : {S Z : Type 0} → ServiceFilter S Z → ℤ → ServiceFilter S Z
check_time_limit s jst_time =
    maybe s.option.time_limit s
      (λ limit. if ltb_ℤ jst_time limit then s else record s { done = true })

unfoldable pub handle_tot : {S Z : Type 0} → ServiceFilter S Z → Tot → ServiceFilter S Z
unfolding check_time_limit
handle_tot s t = if t.is_valid then check_time_limit s t.utc_time else s

module _ {S Z : Type 0} (packetizer : Packetizer Z Pat) where
  -- The rest of `HandlePat` for a PAT that names the service with a safe PID.
  unfoldable pub accept_pat : ServiceFilter S Z → Pat → ℕ → Option (ServiceFilter S Z)
  accept_pat s t new_pmt_pid = do
    let removed = if s.pmt_pid == pid_null then s.demux else remove_pid s.pmt_pid ∷ s.demux
    let only = only_service s.option.sid t
    assert (length only.pmts == 1)
    assert (has_value (lookup s.option.sid only.pmts))
    some (record s {
      demux = add_pid new_pmt_pid ∷ removed;
      pat_packetizer = packetizer.add_table only (packetizer.remove_all s.pat_packetizer);
      psi_filter = insert new_pmt_pid (insert_all psi_filter_pids []);
      pmt_pid = new_pmt_pid;
    })

  unfoldable pub handle_pat : ServiceFilter S Z → Pat → Option (ServiceFilter S Z)
  handle_pat s t =
      let found : Option (ServiceFilter S Z) = elim (lookup s.option.sid t.pmts) [
        | none ↦ some (record s { done = true; error = true })
        | some new_pmt_pid ↦
            if is_safe_dynamic_pid new_pmt_pid then accept_pat s t new_pmt_pid else some s
      ] in
      if not (t.source_pid == pid_pat)
      then some s
      else if not t.is_valid
      then some s
      else if t.ts_id == 0
      then some s
      else found

  unfoldable pub handle_table : ServiceFilter S Z → Table → Option (ServiceFilter S Z)
  handle_table s (pat t) = handle_pat s t
  handle_table s (cat t) = some (handle_cat s t)
  handle_table s (pmt t) = some (handle_pmt s t)
  handle_table s (tot t) = some (handle_tot s t)
  handle_table s _ = some s

  -- `demux_.feedPacket`: the tables that it hands on, in order.
  unfoldable pub feed_packet : ServiceFilter S Z → List Table → Option (ServiceFilter S Z)
  feed_packet s [] = some s
  feed_packet s (t ∷ ts) = handle_table s t >>= λ s'. feed_packet s' ts

  module _ (downstream : PacketSink S Packet) where
    -- `sink_->HandlePacket`
    unfoldable pub send : ServiceFilter S Z → S → Packet → ServiceFilter S Z × Bool
    send s sink packet =
        let (sink', ok) = downstream.handle_packet sink packet in
        (record s { sink = some sink' }, ok)

    -- A packet of the modified PAT.
    unfoldable pub send_pat : ServiceFilter S Z → S → Option (ServiceFilter S Z × Bool)
    send_pat s sink = do
      let (packetizer', pat_packet) = packetizer.next_packet s.pat_packetizer
      assert (pat_packet.pid == pid_pat)
      some (send (record s { pat_packetizer = packetizer' }) sink pat_packet)

    -- The rest of `HandlePacket` once the packet is fed to the demux.
    unfoldable pub forward : ServiceFilter S Z → S → Packet → Option (ServiceFilter S Z × Bool)
    forward s sink packet =
        let other_case = assert (not (packet.pid == pid_null)) >> some (send s sink packet) in
        if s.done
        then some (s, false)
        else if check_filter_for_drop s packet.pid
        then some (s, true)
        else if packet.pid == pid_pat
        then send_pat s sink
        else other_case

    unfoldable pub handle_packet :
        ServiceFilter S Z → Packet → List Table → Option (ServiceFilter S Z × Bool)
    handle_packet s packet tables =
        maybe s.sink (some (s, false))
          (λ sink. feed_packet s tables >>= λ s'. forward s' sink packet)

    -- `GetExitCode` of a connected filter.
    unfoldable pub exit_code : ServiceFilter S Z → S → ℕ
    exit_code s sink =
        let code = downstream.exit_code sink in
        if code == exit_success then if s.error then exit_failure else code else code
