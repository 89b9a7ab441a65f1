-- ===== src/Ts/Service.antt =====
-- `check_pmt_service_id` of src/ts.c: does a PMT belong to a channel?
use mu_mu_dvb.Ts.Header.{hilo}
use mu_mu_dvb.Prelude.{◌&&◌, ◌%◌, ◌==◌, not, if◌then◌else◌, ℕ, List, Bool, true, false}
use mu_mu_dvb.Crc.Calc.{byte_at}

-- `service_id` is that of the channel, 0 where it is not known, and `data_full` the PMT.
unfoldable pub check_pmt_service_id : List ℕ → ℕ → Bool
check_pmt_service_id data_full service_id =
    if not (byte_at data_full 0 == 0x02)
    then false
    else if byte_at data_full 5 % 2 == 0
    then false
    else if not (service_id == 0)
        && not (service_id == hilo (byte_at data_full 3) (byte_at data_full 4))
    then false
    else true
