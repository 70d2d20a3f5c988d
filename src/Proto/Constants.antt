-- ===== src/Proto/Constants.antt =====
-- src/xrd/proto/constants.py: the numbers of the wire protocol, in the source's order.
use py_xroot_dclient.Base.{ℕ, ◌+◌, ◌-◌, ◌^◌, [], ◌∷◌, Bytes}

abbrev pub kxr_auth : ℕ
kxr_auth = 3000

abbrev pub kxr_query : ℕ
kxr_query = 3001

abbrev pub kxr_chmod : ℕ
kxr_chmod = 3002

abbrev pub kxr_close : ℕ
kxr_close = 3003

abbrev pub kxr_dirlist : ℕ
kxr_dirlist = 3004

abbrev pub kxr_gpfile : ℕ
kxr_gpfile = 3005

abbrev pub kxr_protocol : ℕ
kxr_protocol = 3006

abbrev pub kxr_login : ℕ
kxr_login = 3007

abbrev pub kxr_mkdir : ℕ
kxr_mkdir = 3008

abbrev pub kxr_mv : ℕ
kxr_mv = 3009

abbrev pub kxr_open : ℕ
kxr_open = 3010

abbrev pub kxr_ping : ℕ
kxr_ping = 3011

abbrev pub kxr_chkpoint : ℕ
kxr_chkpoint = 3012

abbrev pub kxr_read : ℕ
kxr_read = 3013

abbrev pub kxr_rm : ℕ
kxr_rm = 3014

abbrev pub kxr_rmdir : ℕ
kxr_rmdir = 3015

abbrev pub kxr_sync : ℕ
kxr_sync = 3016

abbrev pub kxr_stat : ℕ
kxr_stat = 3017

abbrev pub kxr_set : ℕ
kxr_set = 3018

abbrev pub kxr_write : ℕ
kxr_write = 3019

abbrev pub kxr_fattr : ℕ
kxr_fattr = 3020

abbrev pub kxr_prepare : ℕ
kxr_prepare = 3021

abbrev pub kxr_statx : ℕ
kxr_statx = 3022

abbrev pub kxr_endsess : ℕ
kxr_endsess = 3023

abbrev pub kxr_bind : ℕ
kxr_bind = 3024

abbrev pub kxr_readv : ℕ
kxr_readv = 3025

abbrev pub kxr_pgwrite : ℕ
kxr_pgwrite = 3026

abbrev pub kxr_locate : ℕ
kxr_locate = 3027

abbrev pub kxr_truncate : ℕ
kxr_truncate = 3028

abbrev pub kxr_sigver : ℕ
kxr_sigver = 3029

abbrev pub kxr_pgread : ℕ
kxr_pgread = 3030

abbrev pub kxr_writev : ℕ
kxr_writev = 3031

abbrev pub kxr_clone : ℕ
kxr_clone = 3032

abbrev pub kxr_1strequest : ℕ
kxr_1strequest = 3000

abbrev pub kxr_setattr : ℕ
kxr_setattr = 3500

abbrev pub kxr_symlink : ℕ
kxr_symlink = 3501

abbrev pub kxr_readlink : ℕ
kxr_readlink = 3502

abbrev pub kxr_link : ℕ
kxr_link = 3503

abbrev pub kxr_sa_times : ℕ
kxr_sa_times = 0x01

abbrev pub kxr_sa_owner : ℕ
kxr_sa_owner = 0x02

abbrev pub utime_now : ℕ
utime_now = 2 ^ 30 - 1

abbrev pub utime_omit : ℕ
utime_omit = 2 ^ 30 - 2

abbrev pub kxr_ok : ℕ
kxr_ok = 0

abbrev pub kxr_oksofar : ℕ
kxr_oksofar = 4000

abbrev pub kxr_attn : ℕ
kxr_attn = 4001

abbrev pub kxr_authmore : ℕ
kxr_authmore = 4002

abbrev pub kxr_error : ℕ
kxr_error = 4003

abbrev pub kxr_redirect : ℕ
kxr_redirect = 4004

abbrev pub kxr_wait : ℕ
kxr_wait = 4005

abbrev pub kxr_waitresp : ℕ
kxr_waitresp = 4006

abbrev pub kxr_status : ℕ
kxr_status = 4007

abbrev pub kxr_asyncab : ℕ
kxr_asyncab = 5000

abbrev pub kxr_asyncdi : ℕ
kxr_asyncdi = 5001

abbrev pub kxr_asyncms : ℕ
kxr_asyncms = 5002

abbrev pub kxr_asyncrd : ℕ
kxr_asyncrd = 5003

abbrev pub kxr_asyncwt : ℕ
kxr_asyncwt = 5004

abbrev pub kxr_asyncav : ℕ
kxr_asyncav = 5005

abbrev pub kxr_asynunav : ℕ
kxr_asynunav = 5006

abbrev pub kxr_asyncgo : ℕ
kxr_asyncgo = 5007

abbrev pub kxr_asynresp : ℕ
kxr_asynresp = 5008

abbrev pub kxr_ismanager : ℕ
kxr_ismanager = 0x00000002

abbrev pub kxr_isserver : ℕ
kxr_isserver = 0x00000001

abbrev pub kxr_attrcache : ℕ
kxr_attrcache = 0x00000080

abbrev pub kxr_attrmeta : ℕ
kxr_attrmeta = 0x00000100

abbrev pub kxr_attrproxy : ℕ
kxr_attrproxy = 0x00000200

abbrev pub kxr_attrsuper : ℕ
kxr_attrsuper = 0x00000400

abbrev pub kxr_attrvirtrdr : ℕ
kxr_attrvirtrdr = 0x00000800

abbrev pub kxr_recoverwrts : ℕ
kxr_recoverwrts = 0x00001000

abbrev pub kxr_collapseredir : ℕ
kxr_collapseredir = 0x00002000

abbrev pub kxr_ecredir : ℕ
kxr_ecredir = 0x00004000

abbrev pub kxr_supposc : ℕ
kxr_supposc = 0x00100000

abbrev pub kxr_suppgrw : ℕ
kxr_suppgrw = 0x00200000

abbrev pub kxr_supgpf : ℕ
kxr_supgpf = 0x00400000

abbrev pub kxr_anongpf : ℕ
kxr_anongpf = 0x00800000

abbrev pub kxr_havetls : ℕ
kxr_havetls = 0x80000000

abbrev pub kxr_gototls : ℕ
kxr_gototls = 0x40000000

abbrev pub kxr_tlsany : ℕ
kxr_tlsany = 0x1F000000

abbrev pub kxr_tlsdata : ℕ
kxr_tlsdata = 0x01000000

abbrev pub kxr_tlsgpf : ℕ
kxr_tlsgpf = 0x02000000

abbrev pub kxr_tlslogin : ℕ
kxr_tlslogin = 0x04000000

abbrev pub kxr_tlssess : ℕ
kxr_tlssess = 0x08000000

abbrev pub kxr_tlstpc : ℕ
kxr_tlstpc = 0x10000000

abbrev pub kxr_tlsgpfa : ℕ
kxr_tlsgpfa = 0x20000000

abbrev pub rootd_pq : ℕ
rootd_pq = 2012

abbrev pub kxr_protocolversion : ℕ
kxr_protocolversion = 0x00000520

abbrev pub kxr_secreqs : ℕ
kxr_secreqs = 0x01

abbrev pub kxr_abletls : ℕ
kxr_abletls = 0x02

abbrev pub kxr_wanttls : ℕ
kxr_wanttls = 0x04

abbrev pub kxr_explogin : ℕ
kxr_explogin = 0x03

abbrev pub kxr_asyncap : ℕ
kxr_asyncap = 0x80

abbrev pub kxr_ver005 : ℕ
kxr_ver005 = 0x05

abbrev pub session_id_len : ℕ
session_id_len = 16

abbrev pub kxr_online : ℕ
kxr_online = 0x01

abbrev pub kxr_dstat : ℕ
kxr_dstat = 0x02

abbrev pub kxr_dcksm : ℕ
kxr_dcksm = 0x04

abbrev pub kxr_vfs : ℕ
kxr_vfs = 0x01

abbrev pub kxr_statnofollow : ℕ
kxr_statnofollow = 0x40

abbrev pub kxr_compress : ℕ
kxr_compress = 0x0001

abbrev pub kxr_delete : ℕ
kxr_delete = 0x0002

abbrev pub kxr_force : ℕ
kxr_force = 0x0004

abbrev pub kxr_new : ℕ
kxr_new = 0x0008

abbrev pub kxr_open_read : ℕ
kxr_open_read = 0x0010

abbrev pub kxr_open_updt : ℕ
kxr_open_updt = 0x0020

abbrev pub kxr_async : ℕ
kxr_async = 0x0040

abbrev pub kxr_refresh : ℕ
kxr_refresh = 0x0080

abbrev pub kxr_mkpath : ℕ
kxr_mkpath = 0x0100

abbrev pub kxr_open_apnd : ℕ
kxr_open_apnd = 0x0200

abbrev pub kxr_retstat : ℕ
kxr_retstat = 0x0400

abbrev pub kxr_replica : ℕ
kxr_replica = 0x0800

abbrev pub kxr_posc : ℕ
kxr_posc = 0x1000

abbrev pub kxr_nowait : ℕ
kxr_nowait = 0x2000

abbrev pub kxr_seqio : ℕ
kxr_seqio = 0x4000

abbrev pub kxr_open_wrto : ℕ
kxr_open_wrto = 0x8000

abbrev pub kxr_mkdirpath : ℕ
kxr_mkdirpath = 0x01

abbrev pub kxr_qstats : ℕ
kxr_qstats = 1

abbrev pub kxr_qprep : ℕ
kxr_qprep = 2

abbrev pub kxr_qcksum : ℕ
kxr_qcksum = 3

abbrev pub kxr_qxattr : ℕ
kxr_qxattr = 4

abbrev pub kxr_qspace : ℕ
kxr_qspace = 5

abbrev pub kxr_qckscan : ℕ
kxr_qckscan = 6

abbrev pub kxr_qconfig : ℕ
kxr_qconfig = 7

abbrev pub kxr_qvisa : ℕ
kxr_qvisa = 8

abbrev pub kxr_qopaque : ℕ
kxr_qopaque = 16

abbrev pub kxr_qopaquf : ℕ
kxr_qopaquf = 32

abbrev pub kxr_qopaqug : ℕ
kxr_qopaqug = 64

abbrev pub kxr_cancel : ℕ
kxr_cancel = 1

abbrev pub kxr_notify : ℕ
kxr_notify = 2

abbrev pub kxr_noerrs : ℕ
kxr_noerrs = 4

abbrev pub kxr_stage : ℕ
kxr_stage = 8

abbrev pub kxr_wmode : ℕ
kxr_wmode = 16

abbrev pub kxr_coloc : ℕ
kxr_coloc = 32

abbrev pub kxr_fresh : ℕ
kxr_fresh = 64

abbrev pub kxr_usetcp : ℕ
kxr_usetcp = 128

abbrev pub kxr_evict : ℕ
kxr_evict = 0x0001

abbrev pub kxr_addpeers : ℕ
kxr_addpeers = 0x0001

abbrev pub kxr_refreshloc : ℕ
kxr_refreshloc = 0x0080

abbrev pub kxr_prefname : ℕ
kxr_prefname = 0x0100

abbrev pub kxr_4dirlist : ℕ
kxr_4dirlist = 0x0400

abbrev pub kxr_nowaitloc : ℕ
kxr_nowaitloc = 0x2000

abbrev pub kxr_fattrdel : ℕ
kxr_fattrdel = 0

abbrev pub kxr_fattrget : ℕ
kxr_fattrget = 1

abbrev pub kxr_fattrlist : ℕ
kxr_fattrlist = 2

abbrev pub kxr_fattrset : ℕ
kxr_fattrset = 3

abbrev pub kxr_fattrmaxvars : ℕ
kxr_fattrmaxvars = 16

abbrev pub kxr_fattrisnew : ℕ
kxr_fattrisnew = 0x01

abbrev pub kxr_fattradata : ℕ
kxr_fattradata = 0x10

abbrev pub kxr_fattrrecurse : ℕ
kxr_fattrrecurse = 0x20

abbrev pub kxr_ckpbegin : ℕ
kxr_ckpbegin = 0

abbrev pub kxr_ckpcommit : ℕ
kxr_ckpcommit = 1

abbrev pub kxr_ckpquery : ℕ
kxr_ckpquery = 2

abbrev pub kxr_ckprollback : ℕ
kxr_ckprollback = 3

abbrev pub kxr_ckpxeq : ℕ
kxr_ckpxeq = 4

abbrev pub kxr_wv_dosync : ℕ
kxr_wv_dosync = 0x01

abbrev pub read_list_entry_len : ℕ
read_list_entry_len = 16

abbrev pub clone_item_len : ℕ
clone_item_len = 32

abbrev pub kxr_sha256_sig : ℕ
kxr_sha256_sig = 0x01

abbrev pub kxr_nodata_sig : ℕ
kxr_nodata_sig = 0x01

abbrev pub kxr_secnone : ℕ
kxr_secnone = 0

abbrev pub kxr_seccompatible : ℕ
kxr_seccompatible = 1

abbrev pub kxr_secstandard : ℕ
kxr_secstandard = 2

abbrev pub kxr_secintense : ℕ
kxr_secintense = 3

abbrev pub kxr_secpedantic : ℕ
kxr_secpedantic = 4

abbrev pub kxr_pgpagesz : ℕ
kxr_pgpagesz = 4096

abbrev pub kxr_pgunitsz : ℕ
kxr_pgunitsz = kxr_pgpagesz + 4

abbrev pub kxr_pgmaxepr : ℕ
kxr_pgmaxepr = 128

abbrev pub kxr_pgretry : ℕ
kxr_pgretry = 0x01

abbrev pub kxr_pgvalid : ℕ
kxr_pgvalid = 0x02

abbrev pub kxr_finalresult : ℕ
kxr_finalresult = 0x00

abbrev pub kxr_partialresult : ℕ
kxr_partialresult = 0x01

abbrev pub status_hdr_len : ℕ
status_hdr_len = 16

abbrev pub status_body_len : ℕ
status_body_len = 24

abbrev pub kxr_xset : ℕ
kxr_xset = 0x01

abbrev pub kxr_isdir : ℕ
kxr_isdir = 0x02

abbrev pub kxr_other : ℕ
kxr_other = 0x04

abbrev pub kxr_offline : ℕ
kxr_offline = 0x08

abbrev pub kxr_readable : ℕ
kxr_readable = 0x10

abbrev pub kxr_writable : ℕ
kxr_writable = 0x20

abbrev pub kxr_poscpend : ℕ
kxr_poscpend = 0x40

abbrev pub kxr_bkpexist : ℕ
kxr_bkpexist = 0x80

abbrev pub default_port : ℕ
default_port = 1094

abbrev pub request_hdrlen : ℕ
request_hdrlen = 24

abbrev pub response_hdrlen : ℕ
response_hdrlen = 8

abbrev pub fhandle_len : ℕ
fhandle_len = 4

abbrev pub null_fhandle : Bytes
null_fhandle = 0 ∷ 0 ∷ 0 ∷ 0 ∷ []

abbrev pub max_frame_payload : ℕ
max_frame_payload = 0x7FFFFFFF

abbrev pub max_response_body : ℕ
max_response_body = 2 ^ 30
