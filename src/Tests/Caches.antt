-- ===== src/Tests/Caches.antt =====
-- The data cache with one line filled in.
use tartaruga.Base.{ℕ, Bool, true, false, ◌+◌, ◌≡◌, ◌==◌, refl, arith}
use tartaruga.Dcache.{Dcache, Inputs, idle, load_line, data_rd, ready, mem_request, dcache_step}
use tartaruga.Dcache.Coherent.{
  IsCoherent, served, data_rd-memory, served-mem_request, dcache_step-IsCoherent,
}

-- Word `j` of memory is `j`.
abbrev words : ℕ → ℕ
words j = j

-- Set 1 holds the line at 0x210.
abbrev filled : Dcache
filled = record {
  lines = λ i. record { valid = i == 1; tag = 2; words = λ k. 132 + k };
  state = idle;
}

filled-IsCoherent : IsCoherent filled words
filled-IsCoherent = record { agrees = λ i k p q v. ground arith }

-- An access to 0x218.
abbrev access : Bool → Inputs
access we = record {
  addr = 0x218;
  data_wr = 5;
  we = we;
  req = true;
  mem_req_ready = true;
  mem_data_line = λ k. 0;
  mem_rsp_valid = false;
}

data_rd-memory_example : data_rd filled (access false) ≡ words 134
unfolding ready
data_rd-memory_example =
    data_rd-memory filled-IsCoherent (access false) (omega arith) refl refl refl

served-mem_request_example : served words (mem_request filled (access true)) 134 ≡ 5
unfolding mem_request
served-mem_request_example = served-mem_request filled-IsCoherent (access true) (omega arith) 134

-- The line of set 1 arrives.
abbrev arriving : Dcache
arriving = record {
  lines = λ i. record { valid = false; tag = 0; words = λ k. 0 };
  state = load_line;
}

arriving-IsCoherent : IsCoherent arriving words
arriving-IsCoherent = record { agrees = λ i k p q v. ground arith }

abbrev response : Inputs
response = record (access false) { mem_data_line = λ k. 132 + k; mem_rsp_valid = true }

dcache_step-IsCoherent_example :
    IsCoherent (dcache_step arriving response) (served words (mem_request arriving response))
dcache_step-IsCoherent_example =
    dcache_step-IsCoherent arriving-IsCoherent response (omega arith) (λ k p q. refl)
