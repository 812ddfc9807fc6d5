-- ===== src/I18n/Zh/NodeScores.antt =====
-- web/src/i18n/zh.ts, from `nodeScores.title` to `nodeScores.scoreUnavailable`.
use Prim.Native.String.{String}
use mihomo_cp.Prelude.{List, [], ◌∷◌}

abbrev pub zh_node_scores : List (String × String)
zh_node_scores =
    ("nodeScores.title", "节点 IP 评分")
    ∷ ("nodeScores.readonlyHint", "只读视图：只有管理员可以排队刷新评分。")
    ∷ (
      "nodeScores.disclaimer",
      "Claude Trust Score 是 Net.Coffee 的独立第三方信号（0–100，越高越可信），不是 Anthropic 官方评分。",
    )
    ∷ ("nodeScores.loadFailed", "加载节点评分失败")
    ∷ ("nodeScores.cadenceHint", "评分每 7 天自动更新；手动刷新只会把节点加入队列，列表会自动轮询结果。")
    ∷ ("nodeScores.empty", "暂无已评分节点。添加节点或刷新 provider 后会排队评分。")
    ∷ ("nodeScores.searchPlaceholder", "搜索节点、出口 IP 或 ASN…")
    ∷ ("nodeScores.kind", "来源")
    ∷ ("nodeScores.allKinds", "全部节点来源")
    ∷ ("nodeScores.allStatuses", "全部状态")
    ∷ ("nodeScores.sourceStatic", "静态节点")
    ∷ ("nodeScores.sourceProvider", "订阅节点")
    ∷ ("nodeScores.statusPending", "等待检测")
    ∷ ("nodeScores.statusTesting", "检测中")
    ∷ ("nodeScores.statusOk", "已评分")
    ∷ ("nodeScores.statusFailed", "检测失败")
    ∷ ("nodeScores.statusSkipped", "已跳过")
    ∷ ("nodeScores.scoreMissing", "暂无评分")
    ∷ ("nodeScores.scoreHigh", "高可信")
    ∷ ("nodeScores.scoreMedium", "中等")
    ∷ ("nodeScores.scoreLow", "偏低")
    ∷ ("nodeScores.scoreVeryLow", "很低")
    ∷ ("nodeScores.trustScore", "Claude Trust Score")
    ∷ ("nodeScores.exitIp", "出口 IP")
    ∷ ("nodeScores.exitIpUnknown", "未知")
    ∷ ("nodeScores.rangeOnly", "声明网段内的邻近 IP（{cidr}）")
    ∷ ("nodeScores.ipMatch", "IP 匹配")
    ∷ ("nodeScores.matchExact", "精确匹配")
    ∷ ("nodeScores.matchCidr", "声明网段（非精确）")
    ∷ ("nodeScores.matchMismatch", "IP 不一致")
    ∷ ("nodeScores.matchUnknown", "未知")
    ∷ ("nodeScores.ipMismatchHint", "第三方返回的是另一个地址的数据，不会当作此节点的评分。")
    ∷ ("nodeScores.cidrHint", "第三方返回的是声明网段内的邻近 IP；仅作参考，不代表查询 IP 的精确评分。")
    ∷ ("nodeScores.country", "国家/地区")
    ∷ ("nodeScores.asn", "ASN")
    ∷ ("nodeScores.asnOrg", "ASN 组织")
    ∷ ("nodeScores.companyType", "公司类型")
    ∷ ("nodeScores.ipType", "IP 类型")
    ∷ ("nodeScores.residential", "住宅")
    ∷ ("nodeScores.datacenter", "机房")
    ∷ ("nodeScores.vpn", "VPN")
    ∷ ("nodeScores.proxy", "代理")
    ∷ ("nodeScores.tor", "Tor")
    ∷ ("nodeScores.mobile", "移动网络")
    ∷ ("nodeScores.crawler", "爬虫")
    ∷ ("nodeScores.abuser", "滥用信号")
    ∷ ("nodeScores.abuserScore", "滥用评分")
    ∷ ("nodeScores.sources", "数据来源")
    ∷ ("nodeScores.sourceLink", "公开详情")
    ∷ ("nodeScores.checkedAt", "最近检测")
    ∷ ("nodeScores.lastSuccess", "最近成功")
    ∷ ("nodeScores.nextRefresh", "下次刷新")
    ∷ ("nodeScores.neverChecked", "从未检测")
    ∷ ("nodeScores.detailTitle", "节点 IP 评分")
    ∷ ("nodeScores.detailIdentity", "节点")
    ∷ ("nodeScores.detailEgress", "出口")
    ∷ ("nodeScores.detailIntel", "IP 信息")
    ∷ ("nodeScores.detailTiming", "计划")
    ∷ ("nodeScores.detailError", "错误")
    ∷ ("nodeScores.refresh", "刷新评分")
    ∷ ("nodeScores.refreshing", "刷新中…")
    ∷ ("nodeScores.refreshed", "评分已刷新")
    ∷ ("nodeScores.refreshFailed", "刷新评分失败")
    ∷ ("nodeScores.refreshAll", "全部刷新")
    ∷ ("nodeScores.refreshingAll", "正在全部刷新…")
    ∷ ("nodeScores.batchQueued", "已排队 {count} 个节点")
    ∷ ("nodeScores.batchFailed", "排队评分失败")
    ∷ ("nodeScores.scopeNote", "评分来自服务端出口探测；未测试浏览器 DNS、STUN 或 WebRTC。")
    ∷ ("nodeScores.pendingHint", "等待首次探测。")
    ∷ ("nodeScores.failedHint", "最近一次尝试失败；若已有成功评分会继续保留。")
    ∷ ("nodeScores.nextDueUnknown", "未安排")
    ∷ ("nodeScores.scoreSource", "评分来源")
    ∷ ("nodeScores.probeMethod", "出口探测")
    ∷ ("nodeScores.probeMethodValue", "服务端隔离传输")
    ∷ ("nodeScores.unscored", "未评分")
    ∷ ("nodeScores.showingCount", "{count} 个节点")
    ∷ ("nodeScores.updated", "更新时间")
    ∷ ("nodeScores.selectAll", "全选")
    ∷ ("nodeScores.selectedCount", "已选 {count} 个")
    ∷ ("nodeScores.refreshSelected", "刷新所选")
    ∷ ("nodeScores.clearSelection", "清除选择")
    ∷ ("nodeScores.claudeSource", "Claude 数据源 · /api/iprisk")
    ∷ ("nodeScores.lookupSource", "综合数据源 · /api/ip/lookup")
    ∷ ("nodeScores.sourceIdle", "该数据源暂无数据")
    ∷ ("nodeScores.lookupNotStored", "此节点未保存综合数据源结果。")
    ∷ ("nodeScores.exitSource", "出口来源")
    ∷ ("nodeScores.exitSourceClaude", "claude.ai trace")
    ∷ ("nodeScores.exitSourceCloudflare", "Cloudflare trace")
    ∷ ("nodeScores.errorCode", "错误代码")
    ∷ ("nodeScores.scoreUnavailable", "暂无评分")
    ∷ []
