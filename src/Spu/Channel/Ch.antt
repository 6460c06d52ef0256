-- ===== src/Spu/Channel/Ch.antt =====
-- spu_interp.cpp: the numbers of the channels that have a case of their own.
use dbz_budokai_hd.Common.{ℕ}

abbrev pub rd_sig_notify1 : ℕ
rd_sig_notify1 = 3

abbrev pub rd_sig_notify2 : ℕ
rd_sig_notify2 = 4

abbrev pub wr_dec : ℕ
wr_dec = 7

abbrev pub rd_dec : ℕ
rd_dec = 8

abbrev pub wr_srr0 : ℕ
wr_srr0 = 14

abbrev pub rd_srr0 : ℕ
rd_srr0 = 15

abbrev pub mfc_lsa : ℕ
mfc_lsa = 16

abbrev pub mfc_eah : ℕ
mfc_eah = 17

abbrev pub mfc_eal : ℕ
mfc_eal = 18

abbrev pub mfc_size : ℕ
mfc_size = 19

abbrev pub mfc_tag_id : ℕ
mfc_tag_id = 20

abbrev pub mfc_cmd : ℕ
mfc_cmd = 21

abbrev pub mfc_wr_tag_mask : ℕ
mfc_wr_tag_mask = 22

abbrev pub mfc_wr_tag_update : ℕ
mfc_wr_tag_update = 23

abbrev pub mfc_rd_tag_stat : ℕ
mfc_rd_tag_stat = 24

abbrev pub wr_out_mbox : ℕ
wr_out_mbox = 28

abbrev pub rd_in_mbox : ℕ
rd_in_mbox = 29

abbrev pub wr_out_intr_mbox : ℕ
wr_out_intr_mbox = 30
